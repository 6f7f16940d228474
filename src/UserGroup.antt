-- ===== src/UserGroup.antt =====
-- policies/user-group-psp-policy: the user and group IDs with which containers run.
pub mod Settings
pub mod Context
pub mod Enforce
pub mod Pod
