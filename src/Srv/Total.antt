-- ===== src/Srv/Total.antt =====
-- The functions of Execute beside the relations of Runs.
use isotope.Base.{
  ◌≤◌, true, inl, inr, Option-cases, arith, ℕ, String, ◌≡◌, refl, ap, ◌∙◌, Option, none, some, List,
  [], ◌∷◌, ◌++◌,
}
use isotope.Base.Dict.{Dict, lookup}
use isotope.Base.Result.{ok, >>=-of-ok}
use isotope.Graph.Script.Types.{Command, Commands, RequestCommand}
use isotope.Graph.Script.Bounds.{IsBounded, AreBounded}
use isotope.Graph.ServiceType.{ServiceType}
use isotope.Srv.Header.{Header, extract_forwardable_header}
use isotope.Srv.Lookup.{Handler}
use isotope.Srv.Execute.{
  Net, Trace, makes_payload, execute, execute_all, append_error, run_script, serve_http,
}
use isotope.Srv.Sent.{AllRequests, AllRequestsOf}
use isotope.Srv.Runs.{
  Merge, done, left, right, Runs, RunAll, RaceSteps, stop, step, reads, writes, keep, RunScript,
  Serves,
}

-- The events of one goroutine, and then those of the others.
pub Merge-append : (xs ys : Trace) → Merge xs ys (xs ++ ys)
Merge-append [] [] = done
Merge-append [] (e ∷ ys) = right e (Merge-append [] ys)
Merge-append (e ∷ xs) ys = left e (Merge-append xs ys)

module _ (N : Net) where
  -- The payload of the call can be made.
  abbrev pub Fits : RequestCommand → Type 0
  Fits r = r.size ≤ N.max_slice

  append_errors : Option N.Err → List N.Err → Option N.Err
  append_errors errs [] = errs
  append_errors errs (e ∷ errors) = append_errors (some (N.append errs e)) errors

  append_errors-keep :
      (errs failed : Option N.Err) (errors : List N.Err)
      → append_errors (append_error N errs failed) errors
        ≡ append_errors errs (keep N failed errors)
  unfolding append_errors append_error
  append_errors-keep errs none errors = refl
  append_errors-keep errs (some e) errors = refl

  -- Each goroutine reads `errs` and writes it before the next one reads it.
  race_in_turn :
      (errors : List N.Err) (errs : Option N.Err)
      → RaceSteps N
          (record { to_read = errors; to_write = []; errs = errs })
          (record { to_read = []; to_write = []; errs = append_errors errs errors })
  unfolding append_errors
  race_in_turn [] errs = stop _
  race_in_turn (e ∷ errors) errs =
      step _ (reads [] errors e [] errs)
        (step _ (writes errors [] [] e errs errs) (race_in_turn errors (some (N.append errs e))))

  module _ (ask : String → Option ℕ) (header : Header) (types : Dict ServiceType) where
    fitting : (r : RequestCommand) → Fits r → makes_payload N types r ≡ true
    unfolding makes_payload
    fitting r fits = elim (Option-cases (lookup types r.service_name)) [
      | inl unknown ↦ rw (makes_payload, unknown) refl
      | inr (type, known) ↦ rw (makes_payload, known) (ground (arith, fits))
    ]

    mutual
      unfolding execute append_errors append_error

      execute-Runs :
          (c : Command)
          → IsBounded c
          → AllRequests Fits c
          → (own : Trace) × (failed : Option N.Err) × (execute N ask header types c
              ≡ ok (own, failed))
            × Runs N header types c own failed
      execute-Runs (Command.sleep d) b fits = (_, _, refl, (refl, refl))
      execute-Runs (Command.request r) b fits =
          (_, _, rw (fitting r fits) refl, (ask r.service_name, refl, inr fits))
      execute-Runs (Command.concurrent cs) b fits =
          let (own, errors, e, all) = execute_all-RunAll cs none b fits in
          (own, _, e, (errors, all, race_in_turn errors none))
      execute-Runs (Command.other type) b fits = absurd b

      execute_all-RunAll :
          (cs : Commands) (errs : Option N.Err)
          → AreBounded cs
          → AllRequestsOf Fits cs
          → (own : Trace) × (errors : List N.Err) × (execute_all N ask header types cs errs
              ≡ ok (own, append_errors errs errors))
            × RunAll N header types cs own errors
      execute_all-RunAll Commands.nil errs b fits = ([], [], refl, (refl, refl))
      execute_all-RunAll (Commands.cons c cs) errs b fits =
          let (own, failed, e, one) = execute-Runs c b.0 fits.0 in
          let (rest, errors, e', others) =
            execute_all-RunAll cs (append_error N errs failed) b.1 fits.1 in
          (
            own ++ rest,
            keep N failed errors,
            >>=-of-ok _ e
                ∙ >>=-of-ok _ e'
                ∙ ap (λ x. ok (own ++ rest, x)) (append_errors-keep errs failed errors),
            (own, failed, rest, errors, one, others, Merge-append own rest, refl),
          )

  module _ (ask : String → Option ℕ) (header : Header) (types : Dict ServiceType) where
    run_script-RunScript :
        (cs : Commands)
        → AreBounded cs
        → AllRequestsOf Fits cs
        → (own : Trace) × (failed : Option N.Err) × (run_script N ask header types cs
            ≡ ok (own, failed))
          × RunScript N header types cs own failed
    unfolding run_script
    run_script-RunScript Commands.nil b fits = (_, _, refl, (refl, refl))
    run_script-RunScript (Commands.cons c cs) b fits =
        from_step (execute-Runs ask (extract_forwardable_header header) types c b.0 fits.0)
          (run_script-RunScript cs b.1 fits.1)
      where
        from_step :
            (own : Trace) × (failed : Option N.Err) × (execute N ask
                  (extract_forwardable_header header)
                  types
                  c
                ≡ ok (own, failed))
              × Runs N (extract_forwardable_header header) types c own failed
            → (rest : Trace) × (failed : Option N.Err) × (run_script N ask header types cs
                ≡ ok (rest, failed))
              × RunScript N header types cs rest failed
            → (all : Trace) × (failed : Option N.Err) × (run_script N ask header types
                  (Commands.cons c cs)
                ≡ ok (all, failed))
              × RunScript N header types (Commands.cons c cs) all failed
        from_step (own, some e, h, runs) _ =
            (own, some e, >>=-of-ok _ h, (own, some e, runs, (refl, refl)))
        from_step (own, none, h, runs) (rest, failed, h', others) = (
          own ++ rest,
          failed,
          >>=-of-ok _ h ∙ >>=-of-ok _ h',
          (own, none, runs, (rest, others, refl)),
        )

  -- The handler returns for every script of the three types of commands with numbers in range, and
  -- with sizes of which `make` can make a payload, whatever the services called respond. What it does is
  -- one of its runs.
  pub serve_http-Serves :
      (ask : String → Option ℕ) (h : Handler) (header : Header)
      → AreBounded h.service.script
      → AllRequestsOf Fits h.service.script
      → (t : Trace) × (serve_http N ask h header ≡ ok t) × Serves N h header t
  unfolding serve_http
  serve_http-Serves ask h header b fits =
      let (body, failed, e, runs) =
        run_script-RunScript ask header h.service_types h.service.script b fits in
      (_, >>=-of-ok _ e, (body, failed, runs, refl))
