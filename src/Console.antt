-- ===== src/Console.antt =====
-- The web console: auth/frontend.
pub mod Profile
pub mod Session
pub mod Text
pub mod Password
pub mod Vectors
pub mod Keys
pub mod Health
pub mod Collections
pub mod Format
