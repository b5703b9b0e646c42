-- ===== src/Graph.antt =====
-- The data model of a service graph: convert/pkg/graph and the packages below it.
pub mod Pct
pub mod Size
pub mod ServiceType
pub mod Script
pub mod Svc
pub mod Validation
pub mod Unmarshal
pub mod Lock
pub mod Rounding
pub mod Marshal
use isotope.Base.{List}
use isotope.Graph.Svc.{Service}

-- graph.go
pub record ServiceGraph : Type 0 where
  pub services : List Service
