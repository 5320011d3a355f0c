-- ===== src/Client.antt =====
-- clientlibs/js/src: the client of the gateway.
pub mod Errors
pub mod Options
pub mod Retry
pub mod Hedge
pub mod World
pub mod Session
pub mod Calls
pub mod Batch
pub mod Operations
pub mod Pool
