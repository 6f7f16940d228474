-- ===== src/Selinux.antt =====
-- policies/selinux-psp-policy: the SELinux options of pods and containers.
pub mod Settings
pub mod Validate
