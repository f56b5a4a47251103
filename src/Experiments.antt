-- ===== src/Experiments.antt =====
-- backend/experiments: the assignment to an arm, the control arm's fixed schedule, and the analysis.
pub mod Assignment
pub mod Analyzer
pub mod Default
pub mod Baseline
