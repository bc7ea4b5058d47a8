-- ===== src/Plugin.antt =====
-- internal/plugin: the hooks of the host (hooks.go) and the dispatch to them (main.go), with the rows
-- that they write to the log.
pub mod Request
pub mod Hooks
pub mod Logged
pub mod LogSteps
pub mod Costs
pub mod System
pub mod Gates
