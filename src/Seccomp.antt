-- ===== src/Seccomp.antt =====
-- policies/seccomp-psp-policy: the seccomp profiles of pods and containers.
pub mod Settings
pub mod Validate
