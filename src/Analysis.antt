-- ===== src/Analysis.antt =====
-- The derivation of laps from samples (apps/api/src/analysis), over JavaScript's numbers as an
-- instance of `Numbers`.
pub mod Numbers
pub mod Points
pub mod Crossing
pub mod Distance
pub mod Sectors
pub mod Braking
pub mod Segmenter
pub mod Best
pub mod Trace
pub mod Delta
pub mod Placing
pub mod Ring
pub mod SectorGates
pub mod Optimal
pub mod Laps
pub mod Office
pub mod Service
pub mod Examples
