-- ===== src/Srv/Mesh/Needs.antt =====
-- A response needs calls that come to an end.
use mathlib.Core.Path.{subst}
use isotope.Base.{
  ℕ, ◌≤◌, String, ◌==◌, ◌≡◌, ◌⊎◌, inl, inr, refl, sym, ◌∙◌, Option, none, some, Any, Bool-cases,
  eq_iff, arith,
}
use isotope.Graph.{ServiceGraph}
use isotope.Srv.Header.{Header}
use isotope.Srv.Lookup.{Handler, handler_iff}
use isotope.Srv.Runs.{RunScript}
use isotope.Srv.Execute.{Net, Event, Trace, status_of}
use isotope.Srv.Failures.{IsFailure, Tells}
use isotope.Srv.Closed.{total}
use isotope.Srv.Metrics.Count.{is_answer}
use isotope.Srv.Serve.{script-Tells}
use isotope.Srv.Work.{RunScript-answers}
use isotope.Srv.Mesh.{
  Responds, responds, IsBacked, none_left, lost, own, answer, IsOwn, Halts, halts,
}

pub status-none : (N : Net) (err : Option N.Err) → status_of N err ≡ 200 → err ≡ none
status-none N none h = refl
status-none N (some e) h = absurd (omega (arith, h))

is_answer-own : (dest : String) (e : Event) → IsOwn e → is_answer dest e ≡ 0
is_answer-own dest Event.received o = refl
is_answer-own dest (Event.slept d) o = refl
is_answer-own dest (Event.refused x) o = refl
is_answer-own dest (Event.sent q) o = refl
is_answer-own dest (Event.unanswered name) o = refl
is_answer-own dest (Event.recorded_sent name size) o = refl
is_answer-own dest (Event.answered name status) o = absurd o
is_answer-own dest (Event.drained name) o = refl
is_answer-own dest (Event.responded status) o = refl
is_answer-own dest (Event.recorded_response size status) o = refl

module _ (N : Net) (g : ServiceGraph) where
  -- The status of a response is 200 or 500.
  pub Responds-cases :
      (name : String) (status : ℕ) → Responds N g name status → (status ≡ 200) ⊎ (status ≡ 500)
  Responds-cases name status (responds _ h header body none made runs same backed) = inl same
  Responds-cases name status (responds _ h header body (some e) made runs same backed) = inr same

  -- If it is no failure, it is 200.
  pub Responds-fine :
      (name : String) (status : ℕ) → Responds N g name status → (status ≡ 500 → ⊥) → status ≡ 200
  Responds-fine name status r fine = elim (Responds-cases name status r) [
    | inl ok ↦ ok
    | inr failed ↦ absurd (fine failed)
  ]

  -- No call has failed in a run without an error.
  pub RunScript-fine :
      (h : Handler) (header : Header) (body : Trace) (err : Option N.Err)
      → RunScript N header h.service_types h.service.script body err
      → err ≡ none
      → Any IsFailure body
      → ⊥
  RunScript-fine h header body err runs no_error =
      subst (Tells N body) no_error
        (script-Tells N header h.service_types h.service.script body err runs)

  mutual
    pub Responds-Halts :
        (name : String) (status : ℕ) → Responds N g name status → status ≡ 200 → Halts g name
    Responds-Halts name status (responds _ h header body err made runs same backed) e =
        let no_error = status-none N err (sym same ∙ e) in
        halts name h.service ((handler_iff g name h).0 made).0 (λ dest called.
          IsBacked-Halts body dest backed (RunScript-fine h header body err runs no_error) (
            subst (λ n. 1 ≤ n) (sym ((RunScript-answers N h header body err dest runs).1 no_error))
              called))

    IsBacked-Halts :
        (t : Trace) (dest : String)
        → IsBacked N g t
        → (Any IsFailure t → ⊥)
        → 1 ≤ total (is_answer dest) t
        → Halts g dest
    IsBacked-Halts _ dest none_left fine h = absurd (omega (arith, h))
    IsBacked-Halts _ dest (lost name status r b) fine h =
        IsBacked-Halts _ dest b (λ a. fine (inr a)) (omega (arith, h))
    IsBacked-Halts _ dest (own e o b) fine h =
        IsBacked-Halts _ dest b (λ a. fine (inr a)) (omega (arith, h, is_answer-own dest e o))
    IsBacked-Halts _ dest (answer name status r b) fine h = elim (Bool-cases (name == dest)) [
      | inl same ↦
          subst (Halts g) ((eq_iff name dest).0 same) (
            Responds-Halts name status r
              (Responds-fine name status r (λ failed. fine (inl failed))))
      | inr other ↦ IsBacked-Halts _ dest b (λ a. fine (inr a)) (ground (arith, h))
    ]
