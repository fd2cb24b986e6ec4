-- ===== src/Authority.antt =====
-- src/citadel/services/authority: the control plane, one module for each file of the package.
pub mod Fasces
pub mod Pomerium
pub mod Lease
pub mod Empire
pub mod Trust
pub mod Intercessio
pub mod Tribune
pub mod LexCuriata
