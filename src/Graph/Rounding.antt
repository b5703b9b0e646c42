-- ===== src/Graph/Rounding.antt =====
-- A graph with other sizes: what of it stays the same.
use isotope.Base.{String, ◌≡◌, refl, ap, List, [], ◌∷◌, map, All, inl, inr}
use isotope.Graph.{ServiceGraph}
use isotope.Graph.Size.{ByteSize}
use isotope.Graph.Script.Types.{Command, Commands}
use isotope.Graph.Script.Predicates.{AllCommands}
use isotope.Graph.Svc.{Service}
use isotope.Graph.Validation.Spec.{IsValid, IsScript, IsStep, IsLeaf, Defines}

module _ (f : ByteSize → ByteSize) where
  abbrev mutual
    pub round_command : Command → Command
    round_command (Command.request r) = Command.request (record r { size = f r.size })
    round_command (Command.concurrent cs) = Command.concurrent (round_commands cs)
    round_command (Command.sleep d) = Command.sleep d
    round_command (Command.other t) = Command.other t

    pub round_commands : Commands → Commands
    round_commands Commands.nil = Commands.nil
    round_commands (Commands.cons c cs) = Commands.cons (round_command c) (round_commands cs)

  abbrev pub round_service : Service → Service
  round_service s = record s { response_size = f s.response_size; script = round_commands s.script }

  abbrev pub round_graph : ServiceGraph → ServiceGraph
  round_graph g = record { services = map round_service g.services }

  Defines-round :
      (services : List Service) (name : String)
      → Defines services name
      → Defines (map round_service services) name
  Defines-round [] name h = absurd h
  Defines-round (s ∷ services) name (inl h) = inl h
  Defines-round (s ∷ services) name (inr h) = inr (Defines-round services name h)

  module _ {D E : String → Type 0} (known : (name : String) → D name → E name) where
    IsLeaf-round : (c : Command) → IsLeaf D c → IsLeaf E (round_command c)
    IsLeaf-round (Command.request r) h = known r.service_name h
    IsLeaf-round (Command.concurrent cs) h = h
    IsLeaf-round (Command.sleep d) h = tt
    IsLeaf-round (Command.other t) h = tt

    leaves-round :
        (cs : Commands) → AllCommands (IsLeaf D) cs → AllCommands (IsLeaf E) (round_commands cs)
    leaves-round Commands.nil h = tt
    leaves-round (Commands.cons c cs) h = (IsLeaf-round c h.0, leaves-round cs h.1)

    IsStep-round : (c : Command) → IsStep D c → IsStep E (round_command c)
    IsStep-round (Command.concurrent cs) h = leaves-round cs h
    IsStep-round (Command.request r) h = known r.service_name h
    IsStep-round (Command.sleep d) h = tt
    IsStep-round (Command.other t) h = tt

    IsScript-round : (cs : Commands) → IsScript D cs → IsScript E (round_commands cs)
    IsScript-round Commands.nil h = tt
    IsScript-round (Commands.cons c cs) h = (IsStep-round c h.0, IsScript-round cs h.1)

    scripts-round :
        (services : List Service)
        → All (λ s. IsScript D s.script) services
        → All (λ s. IsScript E s.script) (map round_service services)
    scripts-round [] h = tt
    scripts-round (s ∷ services) h = (IsScript-round s.script h.0, scripts-round services h.1)

  -- The names that scripts call do not depend on sizes.
  pub round_graph-IsValid : (g : ServiceGraph) → IsValid g → IsValid (round_graph g)
  round_graph-IsValid g h = scripts-round (Defines-round g.services) g.services h

-- Where each size stays, so does all.
mutual
  round_command-id : (c : Command) → round_command (λ z. z) c ≡ c
  round_command-id (Command.request r) = refl
  round_command-id (Command.concurrent cs) = ap Command.concurrent (round_commands_id cs)
  round_command-id (Command.sleep d) = refl
  round_command-id (Command.other t) = refl

  round_commands_id : (cs : Commands) → round_commands (λ z. z) cs ≡ cs
  round_commands_id Commands.nil = refl
  round_commands_id (Commands.cons c cs) = cc (round_command-id c, round_commands_id cs)

pub round_commands-id : (cs : Commands) → round_commands (λ z. z) cs ≡ cs
round_commands-id cs = round_commands_id cs

pub round_service-id : (s : Service) → round_service (λ z. z) s ≡ s
round_service-id s = ap (λ c. record s { script = c }) (round_commands-id s.script)

pub round_services-id : (services : List Service) → map (round_service (λ z. z)) services ≡ services
round_services-id [] = refl
round_services-id (s ∷ services) = cc (round_service-id s, round_services-id services)
