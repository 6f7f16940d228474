-- ===== src/Capabilities.antt =====
-- policies/capabilities-psp-policy: the Linux capabilities that containers add and drop.
pub mod Settings
pub mod Validate
pub mod Mutate
