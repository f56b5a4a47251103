-- ===== src/Guardrails.antt =====
-- backend/guardrails: the deterministic policy checks, the graph's node that applies them, and the
-- request for a human approval.
pub mod Policy
pub mod Check
pub mod Approval
