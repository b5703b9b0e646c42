-- ===== src/Graph/Script/Types.antt =====
-- The types of convert/pkg/graph/script. A script and a concurrent command are both `[]Command`.
use isotope.Base.{String}
use isotope.Base.Int.{ℤ}
use isotope.Graph.Size.{ByteSize}

pub record RequestCommand : Type 0 where
  pub service_name : String
  pub size : ByteSize

mutual
  pub data Command : Type 0 where
    -- a time.Duration, in nanoseconds
    sleep : ℤ → Command
    request : RequestCommand → Command
    concurrent : Commands → Command
    other : String → Command

  pub data Commands : Type 0 where
    nil : Commands
    cons : Command → Commands → Commands

abbrev pub Script : Type 0
Script = Commands
