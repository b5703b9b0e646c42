-- ===== src/Srv/Timing/Bound.antt =====
-- A handler takes no less time than its script.
use isotope.Base.{
  ℕ, ◌+◌, ◌≤◌, String, ◌≡◌, ◌⊎◌, refl, sym, ◌∙◌, Option, none, some, List, [], ◌∷◌, ◌++◌, inl, inr,
  arith,
}
use isotope.Base.Dict.{Dict}
use isotope.Graph.Script.Types.{Command, Commands}
use isotope.Graph.ServiceType.{ServiceType}
use isotope.Srv.Header.{Header, extract_forwardable_header}
use isotope.Srv.Lookup.{Handler}
use isotope.Srv.Execute.{Net, received, Trace, respond}
use isotope.Srv.Race.{Race-iff, keep-nil}
use isotope.Srv.Timing.{RunsIn, RunAllIn, RunScriptIn, ServesIn}
use isotope.Srv.Timing.Span.{max, span, longest, span_of_steps}

add-max-le : (n a b k : ℕ) → n + a ≤ k → n + b ≤ k → n + max a b ≤ k
add-max-le n a b k h h' = ground arith

module _ (N : Net) (latency : String → ℕ) where
  module _ (header : Header) (types : Dict ServiceType) where
    abbrev AtLeast : ℕ → ℕ → ℕ → Option N.Err → Type 0
    AtLeast n start stop err = (start ≤ stop) × (err ≡ none → start + n ≤ stop)

    mutual
      RunsIn-AtLeast :
          (c : Command) (start stop : ℕ) (t : Trace) (err : Option N.Err)
          → RunsIn N latency header types c start stop t err
          → AtLeast (span latency c) start stop err
      RunsIn-AtLeast (Command.sleep d) start stop t err (e, f, h) = (omega arith, λ k. h)
      RunsIn-AtLeast (Command.request r) start stop t none (answer, e, _, h) = (omega arith, λ k. h)
      RunsIn-AtLeast (Command.request r) start stop t (some x) (answer, e, _, h) =
          (omega arith, λ k. cc)
      RunsIn-AtLeast (Command.concurrent cs) start stop t err (errors, all, race, h) =
          (h, λ k. RunAllIn-longest cs start stop t errors h all ((Race-iff N errors err race).0 k))
      RunsIn-AtLeast (Command.other type) start stop t err h = absurd h

      RunAllIn-longest :
          (cs : Commands) (start stop : ℕ) (t : Trace) (errors : List N.Err)
          → start ≤ stop
          → RunAllIn N latency header types cs start stop t errors
          → errors ≡ []
          → start + longest latency cs ≤ stop
      RunAllIn-longest Commands.nil start stop t errors h all k = omega arith
      RunAllIn-longest (Commands.cons c cs) start stop t errors h
            (own, err, rest, rest_errors, begun, ended, after, before, one, others, m, e) k =
          let (fine, rest_fine) = keep-nil N err rest_errors (sym e ∙ k) in
          let (forward, least) = RunsIn-AtLeast c begun ended own err one in
          let own_span = least fine in
          add-max-le start (span latency c) (longest latency cs) stop (omega arith)
            (RunAllIn-longest cs start stop rest rest_errors h others rest_fine)

  module _ (header : Header) (types : Dict ServiceType) where
    RunScriptIn-AtLeast :
        (cs : Commands) (start stop : ℕ) (t : Trace) (err : Option N.Err)
        → RunScriptIn N latency header types cs start stop t err
        → AtLeast header types (span_of_steps latency cs) start stop err
    RunScriptIn-AtLeast Commands.nil start stop t err (e, f, h) = (h, λ k. omega arith)
    RunScriptIn-AtLeast (Commands.cons c cs) start stop t err
          (own, some x, middle, one, (e, f, h)) =
        let (forward, least) =
          RunsIn-AtLeast (extract_forwardable_header header) types c start middle own (some x)
            one in
        (omega arith, λ k. cc)
    RunScriptIn-AtLeast (Commands.cons c cs) start stop t err
          (own, none, middle, one, (rest, others, e)) =
        let (forward, least) =
          RunsIn-AtLeast (extract_forwardable_header header) types c start middle own none one in
        let (forward', least') = RunScriptIn-AtLeast cs middle stop rest err others in
        let own_span = least refl in (omega arith, λ k. omega (arith, least' k))

  -- A handler that responds with 200 takes at least the sum over the steps of its script of what each
  -- takes: a sleep its duration, a call the latency of its service, and a concurrent command what the
  -- longest of its commands takes. Every other run responds with 500.
  pub ServesIn-takes :
      (h : Handler) (header : Header) (start stop : ℕ) (t : Trace)
      → ServesIn N latency h header start stop t
      → (body : Trace) × (status : ℕ) × (t ≡ received ∷ (body ++ respond status))
        × (((status ≡ 200) × (start + span_of_steps latency h.service.script ≤ stop))
            ⊎ ((status ≡ 500) × (start ≤ stop)))
  ServesIn-takes h header start stop t (body, none, runs, e) =
      let (forward, least) =
        RunScriptIn-AtLeast header h.service_types h.service.script start stop body none runs in
      (body, 200, e, inl (refl, least refl))
  ServesIn-takes h header start stop t (body, some x, runs, e) =
      let (forward, least) =
        RunScriptIn-AtLeast header h.service_types h.service.script start stop body (some x) runs in
      (body, 500, e, inr (refl, forward))
