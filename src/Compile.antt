-- ===== src/Compile.antt =====
-- src/citadel/services/compile: facts of source files, compiled once.
pub mod Unit
pub mod Store
