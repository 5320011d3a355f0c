-- ===== src/Examples.antt =====
-- Tests and examples of the theorems, on concrete data.
pub mod Data
pub mod Bytes
mod Batches
mod Retries
mod Calls
mod Messages
mod Sessions
mod Pages
mod Collections
mod Services
