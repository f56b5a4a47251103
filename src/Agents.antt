-- ===== src/Agents.antt =====
-- backend/agents: the nodes of the recovery graph, and the graph.
pub mod External
pub mod Strategy
pub mod Channel
pub mod Execution
pub mod Nodes
pub mod Graph
