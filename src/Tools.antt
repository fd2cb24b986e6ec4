-- ===== src/Tools.antt =====
-- The parts of tools/ that are pure.
pub mod Oracle
pub mod Custos
pub mod Bloom
pub mod Spans
