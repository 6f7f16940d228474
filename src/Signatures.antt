-- ===== src/Signatures.antt =====
-- policies/verify-image-signatures: the signatures of the images of a workload.
pub mod Settings
pub mod Verify
pub mod Resources
