-- ===== src/ImageCve.antt =====
-- policies/image-cve-policy: the known vulnerabilities of the images of a workload.
pub mod Report
pub mod Settings
pub mod Verify
pub mod Lookup
pub mod Pods
