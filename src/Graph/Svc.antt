-- ===== src/Graph/Svc.antt =====
-- convert/pkg/graph/svc: the type of a service.
pub mod Unmarshal
pub mod Defaults
pub mod Bounds
pub mod Marshal
use isotope.Base.{String, Bool}
use isotope.Base.Int.{ℤ}
use isotope.Graph.Pct.{Percentage}
use isotope.Graph.Size.{ByteSize}
use isotope.Graph.ServiceType.{ServiceType}
use isotope.Graph.Script.Types.{Script}

pub record Service : Type 0 where
  pub name : String
  pub type : ServiceType
  pub num_replicas : ℤ
  pub is_entrypoint : Bool
  pub error_rate : Percentage
  pub response_size : ByteSize
  pub script : Script
