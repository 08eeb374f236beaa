-- ===== src/Db.antt =====
-- The database and its repositories: src/db/schema.ts, src/db/mappers.ts, src/db/repositories.ts and
-- src/db/access-validation-grant-repository.ts.
pub mod Statements
pub mod Identity
pub mod Workspaces
pub mod Apps
pub mod Repositories
pub mod Keyed
pub mod Triples
pub mod Rows
pub mod Csrf
pub mod AuthStates
