-- ===== src/Srv/Mesh/Load.antt =====
-- How many requests the services of a mesh receive for one request.
use isotope.Base.{
  ℕ, ◌+◌, ◌≤◌, String, ◌==◌, if◌then◌else◌, ◌≡◌, refl, ap, some, sym, ◌∙◌, Option, Any, inl, inr,
  arith,
}
use isotope.Graph.{ServiceGraph}
use isotope.Graph.Svc.{Service}
use isotope.Graph.Script.Types.{RequestCommand}
use isotope.Srv.Request.{Request, IsNewRequest, build_request, build_request-url, url_of}
use isotope.Srv.Header.{Header, extract_forwardable_header}
use isotope.Srv.Lookup.{IsFirst, Handler, handler_iff}
use isotope.Srv.Execute.{Net, Event, Trace}
use isotope.Srv.Runs.{RunScript}
use isotope.Srv.Failures.{IsFailure}
use isotope.Srv.Closed.{total}
use isotope.Srv.Work.{request-Does}
use isotope.Srv.Work.Sums.{work_all, RunScript-Does, Does}
use isotope.Srv.Mesh.{Responds, responds, IsBacked, none_left, lost, own, answer, IsOwn}
use isotope.Srv.Mesh.Needs.{Responds-fine, RunScript-fine, status-none}

-- One for the url of `dest`.
abbrev pub goes_to : String → String → ℕ
goes_to dest url = if url == url_of dest then 1 else 0

-- A call, and what comes of it.
abbrev pub call_load : String → (String → ℕ) → RequestCommand → ℕ
call_load dest load r = goes_to dest (url_of r.service_name) + load r.service_name

-- The load that `dest` has of one request to a service: the calls of the service that go to the url of
-- `dest`, and the load of each of its calls.
abbrev pub IsLoad : ServiceGraph → String → (String → ℕ) → Type 0
IsLoad g dest load =
    (name : String) (s : Service)
    → IsFirst name s g.services
    → load name ≡ work_all (call_load dest load) s.script

-- A request sent to the url of `dest`.
abbrev pub is_sent_to : String → Event → ℕ
is_sent_to dest (Event.sent q) = goes_to dest q.url
is_sent_to dest _ = 0

module _ (N : Net) (g : ServiceGraph) (dest : String) where
  abbrev mutual
    -- The requests that are sent to `dest`, up to the response of the service, by the service and by
    -- all that are called on the way, also for a call that gets no response.
    pub sent_to : (name : String) (status : ℕ) → Responds N g name status → ℕ
    sent_to name status (responds _ h header body err made runs same backed) =
        sent_to_all body backed

    pub sent_to_all : (t : Trace) → IsBacked N g t → ℕ
    sent_to_all _ none_left = 0
    sent_to_all _ (lost name status {t} r b) = sent_to name status r + sent_to_all t b
    sent_to_all _ (own e {t} o b) = is_sent_to dest e + sent_to_all t b
    sent_to_all _ (answer name status {t} r b) = sent_to name status r + sent_to_all t b

  module _ (n : IsNewRequest N.new_request) (load : String → ℕ) (is_load : IsLoad g dest load) where
    abbrev load_of : Event → ℕ
    load_of (Event.answered name status) = load name
    load_of (Event.unanswered name) = load name
    load_of (Event.sent q) = goes_to dest q.url
    load_of _ = 0

    load_of-own : (e : Event) → IsOwn e → is_sent_to dest e ≤ load_of e
    load_of-own Event.received o = omega arith
    load_of-own (Event.slept d) o = omega arith
    load_of-own (Event.refused x) o = omega arith
    load_of-own (Event.sent q) o = omega arith
    load_of-own (Event.unanswered name) o = omega arith
    load_of-own (Event.recorded_sent name size) o = omega arith
    load_of-own (Event.answered name status) o = absurd o
    load_of-own (Event.drained name) o = omega arith
    load_of-own (Event.responded status) o = omega arith
    load_of-own (Event.recorded_response size status) o = omega arith

    load_of-exact : (e : Event) → IsOwn e → (IsFailure e → ⊥) → is_sent_to dest e ≡ load_of e
    load_of-exact Event.received o fine = refl
    load_of-exact (Event.slept d) o fine = refl
    load_of-exact (Event.refused x) o fine = refl
    load_of-exact (Event.sent q) o fine = refl
    load_of-exact (Event.unanswered name) o fine = absurd (fine tt)
    load_of-exact (Event.recorded_sent name size) o fine = refl
    load_of-exact (Event.answered name status) o fine = absurd o
    load_of-exact (Event.drained name) o fine = refl
    load_of-exact (Event.responded status) o fine = refl
    load_of-exact (Event.recorded_response size status) o fine = refl

    url_load :
        (header : Header) (r : RequestCommand) (q : Request)
        → build_request N.new_request (url_of r.service_name) r.size header ≡ some q
        → goes_to dest q.url ≡ goes_to dest (url_of r.service_name)
    url_load header r q built =
        ap (goes_to dest)
          (build_request-url N.new_request (url_of r.service_name) r.size header q n built)

    script_load :
        (h : Handler) (header : Header) (body : Trace) (err : Option N.Err)
        → RunScript N header h.service_types h.service.script body err
        → Does N load_of (work_all (call_load dest load) h.service.script) body err
    script_load h header body err runs =
        RunScript-Does N load_of (call_load dest load) header h.service_types (λ d. refl)
          (λ r answer.
            request-Does N load_of (call_load dest load) (extract_forwardable_header header)
              h.service_types r answer (λ e. refl)
              (λ q built. omega (arith, url_load (extract_forwardable_header header) r q built))
              (λ q status built.
                omega (arith, url_load (extract_forwardable_header header) r q built)))
          h.service.script body err runs

    mutual
      sent_to-load :
          (name : String) (status : ℕ) (r : Responds N g name status)
          → (sent_to name status r ≤ load name) × (status ≡ 200 → sent_to name status r ≡ load name)
      sent_to-load name status (responds _ h header body err made runs same backed) =
          let (most, just) = script_load h header body err runs in
          let (all, all_just) = sent_to_all-load body backed in
          let e = is_load name h.service ((handler_iff g name h).0 made).0 in
          (
            omega (arith, most, all, e),
            λ ok.
                let no_error = status-none N err (sym same ∙ ok) in
                omega (
                  arith,
                  just no_error,
                  all_just (RunScript-fine N g h header body err runs no_error),
                  e,
                ),
          )

      sent_to_all-load :
          (t : Trace) (b : IsBacked N g t)
          → (sent_to_all t b ≤ total load_of t)
            × ((Any IsFailure t → ⊥) → sent_to_all t b ≡ total load_of t)
      sent_to_all-load _ none_left = (omega arith, λ fine. refl)
      sent_to_all-load _ (lost name status {t} r b) =
          let (most, just) = sent_to_all-load t b in
          let (own_most, own_just) = sent_to-load name status r in
          (omega (arith, most, own_most), λ fine. absurd (fine (inl tt)))
      sent_to_all-load _ (own e {t} o b) =
          let (most, just) = sent_to_all-load t b in
          (
            omega (arith, most, load_of-own e o),
            λ fine. omega (arith, just (λ a. fine (inr a)), load_of-exact e o (λ f. fine (inl f))),
          )
      sent_to_all-load _ (answer name status {t} r b) =
          let (most, just) = sent_to_all-load t b in
          let (own_most, own_just) = sent_to-load name status r in
          (
            omega (arith, most, own_most),
            λ fine. omega (
              arith,
              just (λ a. fine (inr a)),
              own_just (Responds-fine N g name status r (λ failed. fine (inl failed))),
            ),
          )
