-- ===== src/Obs.antt =====
-- The metrics of backend/atlas/obs.
pub mod Labels
pub mod Counters
pub mod Histograms
pub mod Registry
pub mod Runtime
