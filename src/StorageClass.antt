-- ===== src/StorageClass.antt =====
-- policies/persistentvolumeclaim-storageclass-policy.
pub mod Validate
