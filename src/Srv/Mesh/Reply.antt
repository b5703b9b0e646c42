-- ===== src/Srv/Mesh/Reply.antt =====
-- A service whose calls come to an end can respond.
use isotope.Base.{
  ◌≤◌, String, ◌≢◌, ◌↔◌, refl, Option-cases, eq_refl, none, some, List, [], ◌∷◌, ◌++◌, All, inl,
  inr, arith,
}
use isotope.Base.Dict.{Dict, lookup}
use isotope.Graph.{ServiceGraph}
use isotope.Graph.Script.Types.{Command, Commands, RequestCommand}
use isotope.Graph.Script.Bounds.{IsBounded, AreBounded}
use isotope.Graph.ServiceType.{ServiceType}
use isotope.Graph.Svc.{Service}
use isotope.Graph.Validation.Spec.{Defines}
use isotope.Srv.Header.{Header, extract_forwardable_header}
use isotope.Srv.Lookup.{
  Handler, handler_iff, IsFirst, here, later, extract_service_types, extract_service_types-Defines,
}
use isotope.Srv.Request.{build_request, url_of}
use isotope.Srv.Execute.{Net, Event, Trace, sent, execute_request_command, send_request, receive}
use isotope.Srv.Runs.{Runs, RunAll, RunScript, stop}
use isotope.Srv.Total.{Merge-append}
use isotope.Srv.Work.{calls_to}
use isotope.Srv.Work.Sums.{work, work_all}
use isotope.Srv.Calls.{first-All}
use isotope.Srv.Sent.{AllRequests, AllRequestsOf}
use isotope.Srv.Mesh.{
  Responds, responds, IsBacked, none_left, lost, own, answer, Halts, halts, Reaches,
}
use isotope.Srv.Mesh.Cycle.{Halts-acyclic}
use isotope.Srv.Mesh.Needs.{Responds-Halts}

-- The payload of a call can be made, and http.NewRequest takes its url.
abbrev pub CanSend : Net → RequestCommand → Type 0
CanSend N r =
    (r.size ≤ N.max_slice)
    × ((header : Header) → build_request N.new_request (url_of r.service_name) r.size header ≢ none)

IsFirst-Defines :
    {name : String} {s : Service} {services : List Service}
    → IsFirst name s services
    → Defines services name
IsFirst-Defines (here rest e) = inl e
IsFirst-Defines (later t differs first) = inr (IsFirst-Defines first)

module _ (N : Net) (g : ServiceGraph) where
  IsBacked-append : (xs ys : Trace) → IsBacked N g xs → IsBacked N g ys → IsBacked N g (xs ++ ys)
  IsBacked-append _ ys none_left k = k
  IsBacked-append _ ys (lost name status r b) k = lost name status r (IsBacked-append _ ys b k)
  IsBacked-append _ ys (own e o b) k = own e o (IsBacked-append _ ys b k)
  IsBacked-append _ ys (answer name status r b) k = answer name status r (IsBacked-append _ ys b k)

  -- A service that a handler knows, and that can respond with 200.
  abbrev IsReady : Dict ServiceType → String → Type 0
  IsReady types dest = (lookup types dest ≢ none) × Responds N g dest 200

  module _ (header : Header) (types : Dict ServiceType) where
    -- A run without an error, in which each service called responds with 200.
    abbrev Succeeds : Command → Type 0
    Succeeds c = (t : Trace) × Runs N header types c t none × IsBacked N g t

    request-Succeeds :
        (r : RequestCommand)
        → CanSend N r
        → IsReady types r.service_name
        → Succeeds (Command.request r)
    unfolding execute_request_command send_request receive
    request-Succeeds r (fits, builds) (known, reply) =
        elim (Option-cases (lookup types r.service_name)) [
          | inl missing ↦ absurd (known missing)
          | inr (type, found) ↦
              elim (Option-cases
                (build_request N.new_request (url_of r.service_name) r.size header)) [
                  | inl bad ↦ absurd (builds header bad)
                  | inr (q, built) ↦ (
                    sent q
                        ∷ Event.answered r.service_name 200
                        ∷ Event.recorded_sent r.service_name r.size
                        ∷ Event.drained r.service_name
                        ∷ [],
                    (
                      some 200,
                      rw (execute_request_command, found, send_request, built) refl,
                      inr fits,
                    ),
                    own _ tt (answer _ _ reply (own _ tt (own _ tt none_left))),
                  )
                ]
        ]

    mutual
      command-Succeeds :
          (c : Command)
          → IsBounded c
          → AllRequests (CanSend N) c
          → ((dest : String) → 1 ≤ work (calls_to dest) c → IsReady types dest)
          → Succeeds c
      command-Succeeds (Command.sleep d) b sends ready = (_, (refl, refl), own _ tt none_left)
      command-Succeeds (Command.request r) b sends ready =
          request-Succeeds r sends (ready r.service_name (ground (arith, eq_refl r.service_name)))
      command-Succeeds (Command.concurrent cs) b sends ready =
          let (t, runs, backed) = all-Succeeds cs b sends ready in (t, ([], runs, stop _), backed)
      command-Succeeds (Command.other type) b sends ready = absurd b

      all-Succeeds :
          (cs : Commands)
          → AreBounded cs
          → AllRequestsOf (CanSend N) cs
          → ((dest : String) → 1 ≤ work_all (calls_to dest) cs → IsReady types dest)
          → (t : Trace) × RunAll N header types cs t [] × IsBacked N g t
      all-Succeeds Commands.nil b sends ready = ([], (refl, refl), none_left)
      all-Succeeds (Commands.cons c cs) b sends ready =
          let (t, runs, backed) =
            command-Succeeds c b.0 sends.0 (λ dest h. ready dest (omega (arith, h))) in
          let (ts, others, rest_backed) =
            all-Succeeds cs b.1 sends.1 (λ dest h. ready dest (omega (arith, h))) in
          (
            t ++ ts,
            (t, none, ts, [], runs, others, Merge-append t ts, refl),
            IsBacked-append t ts backed rest_backed,
          )

  script-Succeeds :
      (header : Header) (types : Dict ServiceType) (cs : Commands)
      → AreBounded cs
      → AllRequestsOf (CanSend N) cs
      → ((dest : String) → 1 ≤ work_all (calls_to dest) cs → IsReady types dest)
      → (t : Trace) × RunScript N header types cs t none × IsBacked N g t
  script-Succeeds header types Commands.nil b sends ready = ([], (refl, refl), none_left)
  script-Succeeds header types (Commands.cons c cs) b sends ready =
      let (t, runs, backed) =
        command-Succeeds (extract_forwardable_header header) types c b.0 sends.0
          (λ dest h. ready dest (omega (arith, h))) in
      let (ts, others, rest_backed) =
        script-Succeeds header types cs b.1 sends.1 (λ dest h. ready dest (omega (arith, h))) in
      (t ++ ts, (t, none, runs, (ts, others, refl)), IsBacked-append t ts backed rest_backed)

  Halts-Defines : {name : String} → Halts g name → Defines g.services name
  Halts-Defines (halts name s first calls) = IsFirst-Defines first

  module _ (bounded : All (λ s. AreBounded s.script) g.services)
      (sends : All (λ s. AllRequestsOf (CanSend N) s.script) g.services) where
    Halts-Responds : (name : String) → Halts g name → Responds N g name 200
    Halts-Responds name (halts _ s first calls) =
        let h : Handler = record { service = s; service_types = extract_service_types g } in
        let (body, runs, backed) =
          script-Succeeds [] h.service_types s.script
            (first-All (λ s. AreBounded s.script) first bounded)
            (first-All (λ s. AllRequestsOf (CanSend N) s.script) first sends)
            (λ dest called. (
              extract_service_types-Defines g dest (Halts-Defines (calls dest called)),
              Halts-Responds dest (calls dest called),
            )) in
        responds name h [] body none ((handler_iff g name h).1 (first, refl)) runs refl backed

    -- A service of the mesh can respond with 200 exactly if its calls, those of the services that it
    -- calls, and so on, come to an end, and then it does not call itself, at once or through others.
    -- This is so for every graph with numbers in range, where `make` can make the payloads of its calls
    -- and http.NewRequest takes their urls.
    pub Responds-iff :
        (name : String)
        → (Responds N g name 200 ↔ Halts g name) × (Responds N g name 200 × Reaches g name name → ⊥)
    Responds-iff name = (
      (λ r. Responds-Halts N g name 200 r refl, Halts-Responds name),
      λ (r, cycle). Halts-acyclic g name (Responds-Halts N g name 200 r refl) cycle,
    )
