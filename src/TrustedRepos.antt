-- ===== src/TrustedRepos.antt =====
-- policies/trusted-repos-policy: the registries, tags and images of pods.
pub mod Matchers
pub mod Settings
pub mod Validation
pub mod Resources
