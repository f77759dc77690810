-- ===== src/Access.antt =====
-- src/shared/utils/access-control.ts: who may manage whom, which organizations an admin manages, and
-- which boards a user may read and write.
pub mod Roles
pub mod Directory
pub mod Managed
pub mod Canvas
mod Tests
