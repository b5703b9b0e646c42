-- ===== src/Srv/Work/Sums.antt =====
-- A number that is summed over the events of a script, against one for each of its requests.
use mathlib.Core.Path.{subst}
use isotope.Base.{ℕ, ◌+◌, ◌≤◌, ◌≡◌, refl, sym, ap, ◌∙◌, Option, none, some, List, [], arith}
use isotope.Base.Int.{ℤ}
use isotope.Base.Dict.{Dict}
use isotope.Graph.Script.Types.{Command, Commands, RequestCommand}
use isotope.Graph.ServiceType.{ServiceType}
use isotope.Srv.Header.{Header, extract_forwardable_header}
use isotope.Srv.Execute.{Net, Event, Trace, execute_request_command}
use isotope.Srv.Runs.{Runs, RunAll, RunScript}
use isotope.Srv.Race.{Race-iff, keep-nil}
use isotope.Srv.Closed.{total, total-append, total-Merge}

-- The sum of a number for each request of a command, at any depth.
module _ (g : RequestCommand → ℕ) where
  abbrev mutual
    pub work : Command → ℕ
    work (Command.request r) = g r
    work (Command.concurrent cs) = work_all cs
    work (Command.sleep d) = 0
    work (Command.other type) = 0

    pub work_all : Commands → ℕ
    work_all Commands.nil = 0
    work_all (Commands.cons c cs) = work c + work_all cs

module _ (N : Net) (f : Event → ℕ) where
  -- At most this much is done, and this much if there is no error.
  abbrev pub Does : ℕ → Trace → Option N.Err → Type 0
  Does n t err = (total f t ≤ n) × (err ≡ none → total f t ≡ n)

  abbrev DoesAll : ℕ → Trace → List N.Err → Type 0
  DoesAll n t errors = (total f t ≤ n) × (errors ≡ [] → total f t ≡ n)

  abbrev pub DoesPair : ℕ → Trace × Option N.Err → Type 0
  DoesPair n x = Does n x.0 x.1

  module _ (g : RequestCommand → ℕ) (sleeps : (d : ℤ) → f (Event.slept d) ≡ 0) (header : Header)
      (types : Dict ServiceType)
      (requests : (r : RequestCommand) (answer : Option ℕ)
        → DoesPair (g r) (execute_request_command N r header types answer)) where
    mutual
      Runs-Does :
          (c : Command) (t : Trace) (err : Option N.Err)
          → Runs N header types c t err
          → Does (work g c) t err
      Runs-Does (Command.sleep d) t err (e, h) =
          subst (λ x. Does 0 x err) (sym e) (omega (arith, sleeps d), λ k. omega (arith, sleeps d))
      Runs-Does (Command.request r) t err (answer, e, _) =
          subst (DoesPair (g r)) e (requests r answer)
      Runs-Does (Command.concurrent cs) t err (errors, all, race) =
          let (most, just) = RunAll-Does cs t errors all in
          (most, λ k. just ((Race-iff N errors err race).0 k))
      Runs-Does (Command.other type) t err h = absurd h

      RunAll-Does :
          (cs : Commands) (t : Trace) (errors : List N.Err)
          → RunAll N header types cs t errors
          → DoesAll (work_all g cs) t errors
      RunAll-Does Commands.nil t errors (e, h) =
          subst (λ x. DoesAll 0 x errors) (sym e) (omega arith, λ k. refl)
      RunAll-Does (Commands.cons c cs) t errors (own, err, rest, rest_errors, one, others, m, e) =
          let (most, just) = Runs-Does c own err one in
          let (most', just') = RunAll-Does cs rest rest_errors others in
          (
            omega (arith, total-Merge f m, most, most'),
            λ k.
                let (fine, rest_fine) = keep-nil N err rest_errors (sym e ∙ k) in
                omega (arith, total-Merge f m, just fine, just' rest_fine),
          )

  pub RunScript-Does :
      (g : RequestCommand → ℕ) (header : Header) (types : Dict ServiceType)
      → ((d : ℤ) → f (Event.slept d) ≡ 0)
      → ((r : RequestCommand) (answer : Option ℕ)
          → DoesPair
              (g r)
              (execute_request_command N r (extract_forwardable_header header) types answer))
      → (cs : Commands) (t : Trace) (err : Option N.Err) → RunScript N header types cs t err
      → Does (work_all g cs) t err
  RunScript-Does g header types sleeps requests = of_steps
    where
      own_step :
          (c : Command) (t : Trace) (err : Option N.Err)
          → Runs N (extract_forwardable_header header) types c t err
          → Does (work g c) t err
      own_step = Runs-Does g sleeps (extract_forwardable_header header) types requests

      of_steps :
          (cs : Commands) (t : Trace) (err : Option N.Err)
          → RunScript N header types cs t err
          → Does (work_all g cs) t err
      of_steps Commands.nil t err (e, h) =
          subst (λ x. Does 0 x err) (sym e) (omega arith, λ k. refl)
      of_steps (Commands.cons c cs) t err (own, some x, runs, (e, h)) =
          (omega (arith, ap (total f) e, (own_step c own (some x) runs).0), λ k. cc)
      of_steps (Commands.cons c cs) t err (own, none, runs, (rest, others, e)) =
          let (most, just) = own_step c own none runs in
          let (most', just') = of_steps cs rest err others in
          (
            omega (arith, ap (total f) e, total-append f own rest, most, most'),
            λ k. omega (arith, ap (total f) e, total-append f own rest, just refl, just' k),
          )
