-- ===== src/Srv/Timing/Span.antt =====
-- How long a script takes: its steps one after the other, and the commands of a step side by side.
use isotope.Base.{ℕ, ◌+◌, leb, if◌then◌else◌, String}
use isotope.Graph.Script.Types.{Command, Commands}
use isotope.Srv.Timing.{wait}

abbrev pub max : ℕ → ℕ → ℕ
max a b = if leb a b then b else a

module _ (latency : String → ℕ) where
  abbrev mutual
    pub span : Command → ℕ
    span (Command.sleep d) = wait d
    span (Command.request r) = latency r.service_name
    span (Command.concurrent cs) = longest cs
    span (Command.other type) = 0

    pub longest : Commands → ℕ
    longest Commands.nil = 0
    longest (Commands.cons c cs) = max (span c) (longest cs)

  abbrev pub span_of_steps : Commands → ℕ
  span_of_steps Commands.nil = 0
  span_of_steps (Commands.cons c cs) = span c + span_of_steps cs
