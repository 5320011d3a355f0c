-- ===== src/Auth.antt =====
-- clientlibs/js/proto/auth/auth.ts: the messages of the auth service, and its methods.
pub mod Accounts
pub mod Profiles
pub mod Keys
pub mod Tokens
pub mod Service
