-- ===== src/Config.antt =====
-- config/*.go: the admission rules of the configuration file.
pub mod Selector
pub mod Resource
pub mod Rules
pub mod Legacy
pub mod Setup
