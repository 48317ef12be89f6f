-- ===== src/Cli.antt =====
-- The package cli.
pub mod Parse
pub mod Execute
