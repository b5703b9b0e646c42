-- ===== src/Graph/Validation/Reasons.antt =====
-- What an error of `validate` says of the graph.
use mathlib.Core.Path.{subst}
use mathlib.Core.Option.{some-injective}
use isotope.Base.{String, ◌≡◌, refl, ◌⊎◌, inl, inr, Bool, true}
use isotope.Base.{Option, none, some, List, [], ◌∷◌, Any, arith, Bool-cases}
use isotope.Base.Dict.{Dict}
use isotope.Error.{Error, request_to_undefined_service, nested_concurrent_command}
use isotope.Graph.{ServiceGraph}
use isotope.Graph.Script.Types.{Command, Commands}
use isotope.Graph.Script.Predicates.{AnyCommand, IsConcurrent, Calls, SomeCalls, Nests, SomeNests}
use isotope.Graph.Svc.{Service}
use isotope.Graph.Validation.{
  is_name, contains_concurrent_command, validate_command, validate_commands, validate_services,
  validate, or_next,
}
use isotope.Graph.Validation.Spec.{Defines, is_name_iff}

-- An error names a service that is called and not defined, or tells of a nested concurrent command.
abbrev pub Reason : (String → Type 0) → (String → Type 0) → Type 0 → Error → Type 0
Reason D IsCalled IsNested (request_to_undefined_service name) = (¬ D name) × IsCalled name
Reason D IsCalled IsNested nested_concurrent_command = IsNested
Reason D IsCalled IsNested _ = ⊥

module _ (D : String → Type 0) {C C' : String → Type 0} {N N' : Type 0}
    (calls : (n : String) → C n → C' n) (nests : N → N') where
  Reason-map : (e : Error) → Reason D C N e → Reason D C' N' e
  Reason-map (request_to_undefined_service n) h = (h.0, calls n h.1)
  Reason-map nested_concurrent_command h = nests h
  Reason-map _ h = absurd h

contains-IsConcurrent :
    (cs : Commands) → contains_concurrent_command cs ≡ true → AnyCommand IsConcurrent cs
unfolding contains_concurrent_command
contains-IsConcurrent Commands.nil h = cc
contains-IsConcurrent (Commands.cons (Command.concurrent x) cs) h = inl tt
contains-IsConcurrent (Commands.cons (Command.sleep d) cs) h = inr (contains-IsConcurrent cs h)
contains-IsConcurrent (Commands.cons (Command.request r) cs) h = inr (contains-IsConcurrent cs h)
contains-IsConcurrent (Commands.cons (Command.other t) cs) h = inr (contains-IsConcurrent cs h)

-- The error of `or_next` is that of one of its parts.
or_next-some : (a b : Option Error) {e : Error} → or_next a b ≡ some e → (a ≡ some e) ⊎ (b ≡ some e)
or_next-some none b h = inr h
or_next-some (some x) b h = inl h

module _ (names : Dict Bool) (D : String → Type 0)
    (names_iff : (n : String) → D n → is_name names n ≡ true) where
  mutual
    unfolding validate_commands

    command-Reason :
        (c : Command) (e : Error)
        → validate_command names c ≡ some e
        → Reason D (λ n. Calls n c) (Nests c) e
    command-Reason (Command.sleep d) e h = cc
    command-Reason (Command.other t) e h = cc
    command-Reason (Command.request r) e h = elim (Bool-cases (is_name names r.service_name)) [
      | inl known ↦ absurd (ground arith)
      | inr missing ↦
          subst (Reason D (λ n. r.service_name ≡ n) ⊥) (some-injective _ _ (rw missing at h))
            (λ d. (cc (names_iff r.service_name d)), refl)
    ]
    command-Reason (Command.concurrent cs) e h =
        elim (or_next-some (validate_commands names cs) _ h) [
          | inl inner ↦ Reason-map D (λ n x. x) inr e (commands-Reason cs e inner)
          | inr outer ↦ elim (Bool-cases (contains_concurrent_command cs)) [
            | inl has ↦
                subst (Reason D (λ n. SomeCalls n cs) (AnyCommand IsConcurrent cs ⊎ SomeNests cs))
                  (some-injective _ _ (rw has at outer)) (inl (contains-IsConcurrent cs has))
            | inr flat ↦ absurd (ground arith)
          ]
        ]

    commands-Reason :
        (cs : Commands) (e : Error)
        → validate_commands names cs ≡ some e
        → Reason D (λ n. SomeCalls n cs) (SomeNests cs) e
    commands-Reason Commands.nil e h = cc
    commands-Reason (Commands.cons c cs) e h = elim (or_next-some (validate_command names c) _ h) [
      | inl first ↦ Reason-map D (λ n. inl) inl e (command-Reason c e first)
      | inr later ↦ Reason-map D (λ n. inr) inr e (commands-Reason cs e later)
    ]

  services-Reason :
      (services : List Service) (e : Error)
      → validate_services names services ≡ some e
      → Reason D
          (λ n. Any (λ s. SomeCalls n s.script) services)
          (Any (λ s. SomeNests s.script) services)
          e
  unfolding validate_services
  services-Reason [] e h = cc
  services-Reason (s ∷ services) e h = elim (or_next-some (validate_commands names s.script) _ h) [
    | inl first ↦ Reason-map D (λ n. inl) inl e (commands-Reason s.script e first)
    | inr later ↦ Reason-map D (λ n. inr) inr e (services-Reason services e later)
  ]

-- The error of `validate` is ErrRequestToUndefinedService for a name that no service has and that
-- some command of the graph calls, at any depth, or it is ErrNestedConcurrentCommand, and then some
-- concurrent command of the graph holds another.
pub validate-Reason :
    (g : ServiceGraph) (e : Error)
    → validate g ≡ some e
    → Reason
        (Defines g.services)
        (λ n. Any (λ s. SomeCalls n s.script) g.services)
        (Any (λ s. SomeNests s.script) g.services)
        e
unfolding validate
validate-Reason g e h = services-Reason _ _ (λ n. (is_name_iff g.services n).1) g.services e h
