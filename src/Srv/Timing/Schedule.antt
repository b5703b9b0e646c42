-- ===== src/Srv/Timing/Schedule.antt =====
-- Each run of a handler can begin at a time and take the time of its script.
use mathlib.Core.Path.{subst}
use isotope.Base.{ℕ, ◌+◌, ◌≤◌, String, ◌≡◌, ◌↔◌, refl, Option, none, some, List, arith}
use isotope.Base.Dict.{Dict}
use isotope.Graph.Script.Types.{Command, Commands}
use isotope.Graph.ServiceType.{ServiceType}
use isotope.Srv.Header.{Header, extract_forwardable_header}
use isotope.Srv.Lookup.{Handler}
use isotope.Srv.Execute.{Net, Trace}
use isotope.Srv.Runs.{Runs, RunAll, RunScript, Serves}
use isotope.Srv.Timing.{call_time, RunsIn, RunAllIn, RunScriptIn, ServesIn}
use isotope.Srv.Timing.Span.{max, span, longest, span_of_steps}

max-ge : (a b : ℕ) → (a ≤ max a b) × (b ≤ max a b)
max-ge a b = ground arith

module _ (N : Net) (latency : String → ℕ) where
  call_time-le : (name : String) (err : Option N.Err) → call_time N latency name err ≤ latency name
  call_time-le name none = omega arith
  call_time-le name (some e) = omega arith

  module _ (header : Header) (types : Dict ServiceType) where
    mutual
      Runs-RunsIn :
          (c : Command) (start : ℕ) (t : Trace) (err : Option N.Err)
          → Runs N header types c t err
          → RunsIn N latency header types c start (start + span latency c) t err
      Runs-RunsIn (Command.sleep d) start t err (e, f) = (e, f, omega arith)
      Runs-RunsIn (Command.request r) start t err (answer, e, p) =
          (answer, e, p, omega (arith, call_time-le r.service_name err))
      Runs-RunsIn (Command.concurrent cs) start t err (errors, all, race) = (
        errors,
        RunAll-RunAllIn cs start (start + longest latency cs) t errors (omega arith) all,
        race,
        omega arith,
      )
      Runs-RunsIn (Command.other type) start t err h = absurd h

      RunAll-RunAllIn :
          (cs : Commands) (start stop : ℕ) (t : Trace) (errors : List N.Err)
          → start + longest latency cs ≤ stop
          → RunAll N header types cs t errors
          → RunAllIn N latency header types cs start stop t errors
      RunAll-RunAllIn Commands.nil start stop t errors h (e, f) = (e, f)
      RunAll-RunAllIn (Commands.cons c cs) start stop t errors h
            (own, err, rest, rest_errors, one, others, m, e) =
          let (most, most') = max-ge (span latency c) (longest latency cs) in
          (
            own,
            err,
            rest,
            rest_errors,
            start,
            start + span latency c,
            omega arith,
            omega arith,
            Runs-RunsIn c start own err one,
            RunAll-RunAllIn cs start stop rest rest_errors (omega arith) others,
            m,
            e,
          )

    mutual
      RunsIn-Runs :
          (c : Command) (start stop : ℕ) (t : Trace) (err : Option N.Err)
          → RunsIn N latency header types c start stop t err
          → Runs N header types c t err
      RunsIn-Runs (Command.sleep d) start stop t err (e, f, h) = (e, f)
      RunsIn-Runs (Command.request r) start stop t err (answer, e, p, h) = (answer, e, p)
      RunsIn-Runs (Command.concurrent cs) start stop t err (errors, all, race, h) =
          (errors, RunAllIn-RunAll cs start stop t errors all, race)
      RunsIn-Runs (Command.other type) start stop t err h = absurd h

      RunAllIn-RunAll :
          (cs : Commands) (start stop : ℕ) (t : Trace) (errors : List N.Err)
          → RunAllIn N latency header types cs start stop t errors
          → RunAll N header types cs t errors
      RunAllIn-RunAll Commands.nil start stop t errors (e, f) = (e, f)
      RunAllIn-RunAll (Commands.cons c cs) start stop t errors
            (own, err, rest, rest_errors, begun, ended, after, before, one, others, m, e) =
          (
            own,
            err,
            rest,
            rest_errors,
            RunsIn-Runs c begun ended own err one,
            RunAllIn-RunAll cs start stop rest rest_errors others,
            m,
            e,
          )

  module _ (header : Header) (types : Dict ServiceType) where
    RunScript-RunScriptIn :
        (cs : Commands) (start : ℕ) (t : Trace) (err : Option N.Err)
        → RunScript N header types cs t err
        → (stop : ℕ) × RunScriptIn N latency header types cs start stop t err
          × (stop ≡ start + span_of_steps latency cs)
    RunScript-RunScriptIn Commands.nil start t err (e, f) =
        (start, (e, f, omega arith), omega arith)
    RunScript-RunScriptIn (Commands.cons c cs) start t err (own, some x, runs, (e, f)) = (
      start + (span latency c + span_of_steps latency cs),
      (
        own,
        some x,
        start + span latency c,
        Runs-RunsIn (extract_forwardable_header header) types c start own (some x) runs,
        (e, f, omega arith),
      ),
      refl,
    )
    RunScript-RunScriptIn (Commands.cons c cs) start t err (own, none, runs, (rest, others, e)) =
        let (stop, timed, same) =
          RunScript-RunScriptIn cs (start + span latency c) rest err others in
        (
          stop,
          (
            own,
            none,
            start + span latency c,
            Runs-RunsIn (extract_forwardable_header header) types c start own none runs,
            (rest, timed, e),
          ),
          omega arith,
        )

    RunScriptIn-RunScript :
        (cs : Commands) (start stop : ℕ) (t : Trace) (err : Option N.Err)
        → RunScriptIn N latency header types cs start stop t err
        → RunScript N header types cs t err
    RunScriptIn-RunScript Commands.nil start stop t err (e, f, h) = (e, f)
    RunScriptIn-RunScript (Commands.cons c cs) start stop t err
          (own, some x, middle, one, (e, f, h)) =
        (
          own,
          some x,
          RunsIn-Runs (extract_forwardable_header header) types c start middle own (some x) one,
          (e, f),
        )
    RunScriptIn-RunScript (Commands.cons c cs) start stop t err
          (own, none, middle, one, (rest, others, e)) =
        (
          own,
          none,
          RunsIn-Runs (extract_forwardable_header header) types c start middle own none one,
          (rest, RunScriptIn-RunScript cs middle stop rest err others, e),
        )

  ServesIn-Serves :
      (h : Handler) (header : Header) (start stop : ℕ) (t : Trace)
      → ServesIn N latency h header start stop t
      → Serves N h header t
  ServesIn-Serves h header start stop t (body, err, runs, e) = (
    body,
    err,
    RunScriptIn-RunScript header h.service_types h.service.script start stop body err runs,
    e,
  )

  -- The runs of the handler are just those that can begin at a time and take the sum over the steps of
  -- the script.
  pub Serves-iff :
      (h : Handler) (header : Header) (start : ℕ) (t : Trace)
      → Serves N h header t
        ↔ ServesIn N latency h header start (start + span_of_steps latency h.service.script) t
  Serves-iff h header start t = (
    λ (body, err, runs, e).
        let (stop, timed, same) =
          RunScript-RunScriptIn header h.service_types h.service.script start body err runs in
        subst (λ stop. ServesIn N latency h header start stop t) same (body, err, timed, e),
    λ timed.
        ServesIn-Serves h header start (start + span_of_steps latency h.service.script) t timed,
  )
