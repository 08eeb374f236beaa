-- ===== src/Services/Admin/Refines.antt =====
-- What the admin operations of src/platform/workspace-admin-service.ts do to the tables, as steps of
-- one abstract relation.
pub mod Parts
pub mod Changes
pub mod Additions
pub mod Apps
