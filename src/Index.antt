-- ===== src/Index.antt =====
-- src/citadel/services/index: the graph of imports.
pub mod Imports
