-- ===== src/VolumeMounts.antt =====
-- policies/volumeMounts-policy: which volume mounts containers may have together.
pub mod Validate
