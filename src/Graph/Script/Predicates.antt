-- ===== src/Graph/Script/Predicates.antt =====
-- Predicates on the commands of a script.
use isotope.Base.{String, ◌≡◌, ◌⊎◌}
use isotope.Graph.Script.Types.{Command, Commands}

module _ (P : Command → Type 0) where
  abbrev pub AllCommands : Commands → Type 0
  AllCommands Commands.nil = Unit
  AllCommands (Commands.cons c cs) = P c × AllCommands cs

  abbrev pub AnyCommand : Commands → Type 0
  AnyCommand Commands.nil = ⊥
  AnyCommand (Commands.cons c cs) = P c ⊎ AnyCommand cs

module _ {P Q : Command → Type 0} (weaken : (c : Command) → P c → Q c) where
  pub AllCommands-map : (cs : Commands) → AllCommands P cs → AllCommands Q cs
  AllCommands-map Commands.nil h = tt
  AllCommands-map (Commands.cons c cs) h = (weaken c h.0, AllCommands-map cs h.1)

abbrev pub IsConcurrent : Command → Type 0
IsConcurrent (Command.concurrent cs) = Unit
IsConcurrent _ = ⊥

-- A command that calls the service of a name, at any depth.
abbrev mutual
  pub Calls : String → Command → Type 0
  Calls name (Command.request r) = r.service_name ≡ name
  Calls name (Command.concurrent cs) = SomeCalls name cs
  Calls name (Command.sleep d) = ⊥
  Calls name (Command.other t) = ⊥

  pub SomeCalls : String → Commands → Type 0
  SomeCalls name Commands.nil = ⊥
  SomeCalls name (Commands.cons c cs) = Calls name c ⊎ SomeCalls name cs

-- A concurrent command that holds a concurrent command, at any depth.
abbrev mutual
  pub Nests : Command → Type 0
  Nests (Command.concurrent cs) = AnyCommand IsConcurrent cs ⊎ SomeNests cs
  Nests (Command.request r) = ⊥
  Nests (Command.sleep d) = ⊥
  Nests (Command.other t) = ⊥

  pub SomeNests : Commands → Type 0
  SomeNests Commands.nil = ⊥
  SomeNests (Commands.cons c cs) = Nests c ⊎ SomeNests cs
