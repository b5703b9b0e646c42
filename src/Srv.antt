-- ===== src/Srv.antt =====
-- service/pkg/srv: the server that a container of the service graph runs.
pub mod Lookup
pub mod Header
pub mod Request
pub mod Read
pub mod Execute
pub mod Runs
pub mod Race
pub mod Failures
pub mod Total
pub mod Closed
pub mod Sent
pub mod Serve
pub mod Calls
pub mod Metrics
pub mod Work
pub mod Mesh
pub mod Timing
