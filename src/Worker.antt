-- ===== src/Worker.antt =====
-- backend/worker.py: one case through the graph, and what is kept of it.
pub mod Persist
pub mod Process
pub mod Laws
pub mod Returns
pub mod Actions
pub mod Cooldown
