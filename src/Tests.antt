-- ===== src/Tests.antt =====
-- Runs of the model on the inputs of the repository's tests, and the theorems at concrete data.
pub mod Sample
pub mod Graph
pub mod GraphTheorems
pub mod Settings
pub mod Graphviz
pub mod Srv
pub mod Kubernetes
pub mod Lock
pub mod Main
pub mod Mesh
pub mod Metrics
pub mod Cmd
pub mod Line
pub mod Timing
