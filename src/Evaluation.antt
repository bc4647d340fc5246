-- ===== src/Evaluation.antt =====
-- The scores of an evaluation: internal/audit/evaluation_report.go and evaluation_costs.go.
pub mod Costs
pub mod Scores
pub mod Tally
