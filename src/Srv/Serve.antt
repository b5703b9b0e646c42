-- ===== src/Srv/Serve.antt =====
-- What the handler responds with.
use mathlib.Core.Path.{subst}
use isotope.Base.{
  ℕ, ◌≡◌, refl, sym, ◌⊎◌, inl, inr, Option, none, some, [], ◌∷◌, ◌++◌, All, Any, Any-append_right,
  Any-append_cases,
}
use isotope.Base.Dict.{Dict}
use isotope.Graph.Script.Types.{Commands}
use isotope.Graph.ServiceType.{ServiceType}
use isotope.Srv.Header.{Header, extract_forwardable_header}
use isotope.Srv.Lookup.{Handler}
use isotope.Srv.Execute.{Net, Event, Trace, received, respond, status_of}
use isotope.Srv.Runs.{RunScript, Serves}
use isotope.Srv.Failures.{IsFailure, Tells, Runs-Tells}
use isotope.Srv.Sent.{script-All, request-All, AllRequestsOf-const}

-- An event of the commands of the script, not of the handler itself.
abbrev pub IsInner : Event → Type 0
IsInner Event.received = ⊥
IsInner (Event.responded status) = ⊥
IsInner (Event.recorded_response size status) = ⊥
IsInner _ = Unit

module _ (N : Net) where
  pub script-Tells :
      (header : Header) (types : Dict ServiceType) (cs : Commands) (t : Trace) (err : Option N.Err)
      → RunScript N header types cs t err
      → Tells N t err
  script-Tells header types Commands.nil t err (e, f) =
      subst (λ x. Tells N x err) (sym e) (subst (Tells N []) (sym f) (λ k. k))
  script-Tells header types (Commands.cons c cs) t err (own, some x, runs, (e, f)) =
      subst (λ x. Tells N x err) (sym e)
        (subst (Tells N own) (sym f)
          (Runs-Tells N (extract_forwardable_header header) types c own (some x) runs))
  script-Tells header types (Commands.cons c cs) t err (own, none, runs, (rest, others, e)) =
      subst (λ x. Tells N x err) (sym e)
        (append-Tells own rest err
          (Runs-Tells N (extract_forwardable_header header) types c own none runs)
          (script-Tells header types cs rest err others))
    where
      append-Tells :
          (own rest : Trace) (err : Option N.Err)
          → Tells N own none
          → Tells N rest err
          → Tells N (own ++ rest) err
      append-Tells own rest none h k =
          λ a. elim (Any-append_cases IsFailure own rest a) [ inl b ↦ h b | inr b ↦ k b ]
      append-Tells own rest (some x) h k = Any-append_right IsFailure own rest k

  -- The status that belongs to the events of the script.
  abbrev pub IsStatusOf : Trace → ℕ → Type 0
  IsStatusOf body status =
      ((status ≡ 200) × (Any IsFailure body → ⊥)) ⊎ ((status ≡ 500) × Any IsFailure body)

  Tells-IsStatusOf :
      (body : Trace) (err : Option N.Err) → Tells N body err → IsStatusOf body (status_of N err)
  Tells-IsStatusOf body none h = inl (refl, h)
  Tells-IsStatusOf body (some e) h = inr (refl, h)

  -- In every run of the handler, it responds once, at its end: with 200 if no call failed, and with
  -- 500 if one did. A failed call is one that is refused, unanswered or answered with status 500.
  pub Serves-IsStatusOf :
      (h : Handler) (header : Header) (t : Trace)
      → Serves N h header t
      → (body : Trace) × (status : ℕ) × (t ≡ received ∷ (body ++ respond status))
        × All IsInner body
        × IsStatusOf body status
  Serves-IsStatusOf h header t (body, err, runs, e) = (
    body,
    status_of N err,
    e,
    inner,
    Tells-IsStatusOf body err (script-Tells header h.service_types h.service.script body err runs),
  )
    where
      inner : All IsInner body
      inner =
          script-All N IsInner (λ r. Unit) h.service_types header (λ d. tt)
            (λ r answer q.
              request-All N IsInner (λ r. Unit) h.service_types (extract_forwardable_header header)
                r answer (λ e. tt) tt (λ q e. tt) tt (λ status. tt) tt tt)
            h.service.script body err (AllRequestsOf-const (λ r. tt) h.service.script) runs
