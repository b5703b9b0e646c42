-- ===== src/Graph/Validation.antt =====
-- convert/pkg/graph/validation.go: the names that commands call, and the nesting of commands.
pub mod Spec
pub mod Reasons
use isotope.Base.{String, Bool, true, false, Option, none, some, List, [], ◌∷◌, if◌then◌else◌}
use isotope.Base.Dict.{Dict, lookup, insert}
use isotope.Error.{Error, request_to_undefined_service, nested_concurrent_command}
use isotope.Graph.{ServiceGraph}
use isotope.Graph.Script.Types.{Command, Commands}
use isotope.Graph.Svc.{Service}

-- The loop that fills `svcNames`.
pub add_names : Dict Bool → List Service → Dict Bool
add_names svc_names [] = svc_names
add_names svc_names (s ∷ services) = add_names (insert svc_names s.name true) services

-- `svcNames[name]`, false for a missing name
pub is_name : Dict Bool → String → Bool
is_name svc_names name = elim (lookup svc_names name) [ none ↦ false | some b ↦ b ]

pub contains_concurrent_command : Commands → Bool
contains_concurrent_command Commands.nil = false
contains_concurrent_command (Commands.cons (Command.concurrent cs) cmds) = true
contains_concurrent_command (Commands.cons _ cmds) = contains_concurrent_command cmds

-- One round of the loop in `validateCommands` has an error, or the loop goes on.
abbrev or_next : Option Error → Option Error → Option Error
or_next (some e) rest = some e
or_next none rest = rest

unfoldable mutual
  unfolding is_name contains_concurrent_command

  pub validate_command : Dict Bool → Command → Option Error
  validate_command names (Command.request r) =
      if is_name names r.service_name
      then none
      else some (request_to_undefined_service r.service_name)
  validate_command names (Command.concurrent cs) =
      or_next (validate_commands names cs)
        (if contains_concurrent_command cs then some nested_concurrent_command else none)
  validate_command names (Command.sleep d) = none
  validate_command names (Command.other t) = none

  pub validate_commands : Dict Bool → Commands → Option Error
  validate_commands names Commands.nil = none
  validate_commands names (Commands.cons c cmds) =
      or_next (validate_command names c) (validate_commands names cmds)

validate_services : Dict Bool → List Service → Option Error
validate_services names [] = none
validate_services names (s ∷ services) =
    or_next (validate_commands names s.script) (validate_services names services)

unfoldable pub validate : ServiceGraph → Option Error
unfolding add_names validate_services
validate g = validate_services (add_names [] g.services) g.services
