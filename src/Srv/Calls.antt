-- ===== src/Srv/Calls.antt =====
-- The calls of a handler: what is sent (request.go), and what is refused (executable.go).
use isotope.Base.{ℕ, String, refl, sym, ◌≡◌, ◌∙◌, Option, none, some, List, All, if◌then◌else◌}
use isotope.Base.Dict.{lookup}
use isotope.Graph.{ServiceGraph}
use isotope.Graph.Script.Types.{Command, Commands, RequestCommand}
use isotope.Graph.Script.Predicates.{AllCommands}
use isotope.Graph.Svc.{Service}
use isotope.Graph.Validation.Spec.{IsValid, IsScript, IsStep, IsLeaf, Defines}
use isotope.Srv.Header.{
  Header, extract_forwardable_header, forwardable_headers, contains,
  lookup-extract_forwardable_header, extract_forwardable_header-IsMap,
}
use isotope.Srv.Lookup.{
  Handler, handler_from_service_graph, handler_iff, IsFirst, here, later, extract_service_types,
  extract_service_types-Defines,
}
use isotope.Srv.Request.{IsNewRequest, build_request-IsGet, url_of}
use isotope.Srv.Execute.{Net, Event, Trace, no_service, execute_request_command}
use isotope.Srv.Runs.{Serves}
use isotope.Srv.Sent.{AllRequests, AllRequestsOf, request-All, Serves-All}

-- If a request is sent, it is that of a request command of which Q holds.
abbrev pub IsCallOf : (RequestCommand → Type 0) → Header → Event → Type 0
IsCallOf Q header (Event.sent q) =
    (r : RequestCommand) × Q r
    × (q.method ≡ "GET")
    × (q.url ≡ url_of r.service_name)
    × (q.body_size ≡ r.size)
    × ((key : String)
        → lookup q.header key
          ≡ (if contains forwardable_headers key then lookup header key else none))
IsCallOf Q header _ = Unit

pub Serves-IsCallOf :
    (N : Net) (Q : RequestCommand → Type 0) (h : Handler) (header : Header) (t : Trace)
    → IsNewRequest N.new_request
    → AllRequestsOf Q h.service.script
    → Serves N h header t
    → All (IsCallOf Q header) t
Serves-IsCallOf N Q h header t n q runs =
    Serves-All N (IsCallOf Q header) Q h.service_types h header t refl (λ d. tt) calls tt
      (λ status. (tt, tt)) q runs
  where
    calls :
        (r : RequestCommand) (answer : Option ℕ)
        → Q r
        → All
            (IsCallOf Q header)
            (execute_request_command N r
              (extract_forwardable_header header)
              h.service_types
              answer).0
    calls r answer holds =
        request-All N (IsCallOf Q header) Q h.service_types (extract_forwardable_header header) r
          answer (λ e. tt) tt
          (λ q built.
            let (method, url, size, headers) =
              build_request-IsGet N.new_request (url_of r.service_name) r.size
                (extract_forwardable_header header) q n (extract_forwardable_header-IsMap header)
                built in
            (
              r,
              holds,
              method,
              url,
              size,
              λ key. headers key ∙ lookup-extract_forwardable_header header key,
            ))
          tt (λ status. tt) tt tt

-- The code does not refuse a call as the service does not exist.
abbrev pub IsKnown : Event → Type 0
IsKnown (Event.refused (no_service name)) = ⊥
IsKnown _ = Unit

module _ (D : String → Type 0) where
  leaves-AllRequests :
      (cs : Commands) → AllCommands (IsLeaf D) cs → AllRequestsOf (λ r. D r.service_name) cs
  leaves-AllRequests Commands.nil h = tt
  leaves-AllRequests (Commands.cons (Command.request r) cs) h = (h.0, leaves-AllRequests cs h.1)
  leaves-AllRequests (Commands.cons (Command.sleep d) cs) h = (tt, leaves-AllRequests cs h.1)
  leaves-AllRequests (Commands.cons (Command.other type) cs) h = (tt, leaves-AllRequests cs h.1)
  leaves-AllRequests (Commands.cons (Command.concurrent x) cs) h = absurd h.0

  step-AllRequests : (c : Command) → IsStep D c → AllRequests (λ r. D r.service_name) c
  step-AllRequests (Command.request r) h = h
  step-AllRequests (Command.concurrent cs) h = leaves-AllRequests cs h
  step-AllRequests (Command.sleep d) h = tt
  step-AllRequests (Command.other type) h = tt

  pub script-AllRequests :
      (cs : Commands) → IsScript D cs → AllRequestsOf (λ r. D r.service_name) cs
  script-AllRequests Commands.nil h = tt
  script-AllRequests (Commands.cons c cs) h = (step-AllRequests c h.0, script-AllRequests cs h.1)

pub first-All :
    (P : Service → Type 0) {name : String} {s : Service} {services : List Service}
    → IsFirst name s services
    → All P services
    → P s
first-All P (here rest e) h = h.0
first-All P (later t d f) h = first-All P f h.1

-- A handler that is made from a valid graph never refuses a call as its service does not exist.
pub Serves-IsKnown :
    (N : Net) (g : ServiceGraph) (name : String) (h : Handler) (header : Header) (t : Trace)
    → IsValid g
    → handler_from_service_graph g name ≡ some h
    → Serves N h header t
    → All IsKnown t
Serves-IsKnown N g name h header t valid made runs =
    let (first, types) = (handler_iff g name h).0 made in
    Serves-All N IsKnown (λ r. Defines g.services r.service_name) (extract_service_types g) h header
      t (sym types) (λ d. tt)
      (λ r answer defined.
        request-All N IsKnown (λ r. Defines g.services r.service_name) (extract_service_types g)
          (extract_forwardable_header header) r answer
          (λ missing. extract_service_types-Defines g r.service_name defined missing) tt (λ q e. tt)
          tt (λ status. tt) tt tt)
      tt (λ status. (tt, tt))
      (script-AllRequests (Defines g.services) h.service.script
        (first-All (λ s. IsScript (Defines g.services) s.script) first valid))
      runs
