-- ===== src/Auth.antt =====
-- src/auth: who an authenticated identity is on the platform.
pub mod Resolver
pub mod Callback
pub mod Sessions
