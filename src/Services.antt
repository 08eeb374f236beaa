-- ===== src/Services.antt =====
-- The services of src/platform, src/auth and src/http, over the repository ports.
pub mod AppAccess
pub mod Admin
pub mod Launch
pub mod Grants
pub mod SessionContext
