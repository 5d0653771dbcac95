-- ===== src/Analysis.antt =====
-- The analysis run controller (analysis/analysis.go) and its helpers (utils/analysis/helpers.go).
pub mod Types
mod Examples
pub mod Results
pub mod Assess
pub mod Run
pub mod Tasks
pub mod Measure
pub mod Schedule
pub mod Collect
