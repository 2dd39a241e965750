-- ===== src/Dag.antt =====
-- workflow/pkg/engine/dag.go: the graph of a workflow, its test for cycles and its queries.
pub mod Cycle
pub mod Colors
pub mod Fuel
pub mod Walk
pub mod Acyclic
pub mod Found
pub mod Verdict
pub mod Graph
pub mod Build
pub mod Order
pub mod Ready
pub mod Flow
pub mod Progress
pub mod Topological
pub mod Remaining
pub mod Kahn
pub mod Settled
pub mod Sorted
pub mod Roots
pub mod Linear
