-- ===== src/FsGroups.antt =====
-- policies/allowed-fsgroups-psp-policy: the file system group of a pod.
pub mod Settings
pub mod Validate
