-- ===== src/Pipeline.antt =====
-- graph/: the pipeline's state, its nodes, the routing between them and its runs.
pub mod State
pub mod Gate
pub mod Config
pub mod Nodes
pub mod Gated
pub mod Route
pub mod Settled
pub mod Run
pub mod Routing
pub mod Linear
pub mod Started
pub mod Advance
pub mod Reached
pub mod Decided
pub mod Reviewed
pub mod Live
