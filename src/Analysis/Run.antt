-- ===== src/Analysis/Run.antt =====
-- assessRunStatus: the phase of a whole run. The clock is read at most once, as `now`; `dry_run` is
-- the map of the metrics that run in dry-run mode.
pub mod Defs
pub mod Phases
pub mod Visit
pub mod Outcome
unfoldable pub use Defs.{assess_run_status}
