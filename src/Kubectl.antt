-- ===== src/Kubectl.antt =====
-- The package kubectl.
pub mod Deploy
pub mod Spec
pub mod Query
