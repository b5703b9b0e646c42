-- ===== src/Srv/Mesh.antt =====
-- The mock services of a graph together: what a service responds with, when the services that it calls
-- respond as their own handlers do (handler.go and executable.go, for each service of graph.go).
pub mod Needs
pub mod Cycle
pub mod Reply
pub mod Load
use isotope.Base.{ℕ, ◌≤◌, String, ◌≡◌, Option, some, [], ◌∷◌}
use isotope.Graph.{ServiceGraph}
use isotope.Graph.Svc.{Service}
use isotope.Srv.Header.{Header}
use isotope.Srv.Lookup.{Handler, handler_from_service_graph, IsFirst}
use isotope.Srv.Execute.{Net, Event, Trace, status_of}
use isotope.Srv.Runs.{RunScript}
use isotope.Srv.Work.{calls_to}
use isotope.Srv.Work.Sums.{work_all}

-- Not a response of another service.
abbrev pub IsOwn : Event → Type 0
IsOwn (Event.answered name status) = ⊥
IsOwn _ = Unit

module _ (N : Net) (g : ServiceGraph) where
  mutual
    -- A service may respond with a status, for a request with some header, in a run of its handler in
    -- which the services called respond likewise.
    pub data Responds : String → ℕ → Type 0 where
      responds :
          (name : String) (h : Handler) (header : Header) (body : Trace) (err : Option N.Err)
          {status : ℕ}
          → handler_from_service_graph g name ≡ some h
          → RunScript N header h.service_types h.service.script body err
          → status ≡ status_of N err
          → IsBacked body
          → Responds name status

    -- The responses among the events are responses of the services.
    pub data IsBacked : Trace → Type 0 where
      none_left : IsBacked []
      -- A call that gets no response may have been served all the same.
      lost :
          (name : String) (status : ℕ) {t : Trace}
          → Responds name status
          → IsBacked t
          → IsBacked (Event.unanswered name ∷ t)
      own : (e : Event) {t : Trace} → IsOwn e → IsBacked t → IsBacked (e ∷ t)
      answer :
          (name : String) (status : ℕ) {t : Trace}
          → Responds name status
          → IsBacked t
          → IsBacked (Event.answered name status ∷ t)

-- The script of the service has a call of `dest`.
abbrev pub IsCalledBy : String → Service → Type 0
IsCalledBy dest s = 1 ≤ work_all (calls_to dest) s.script

-- The calls of a service, the calls of those that it calls, and so on, come to an end.
pub data Halts (g : ServiceGraph) : String → Type 0 where
  halts :
      (name : String) (s : Service)
      → IsFirst name s g.services
      → ((dest : String) → IsCalledBy dest s → Halts g dest)
      → Halts g name

-- The service calls the other, at once or through others.
pub data Reaches (g : ServiceGraph) : String → String → Type 0 where
  calls :
      (name dest : String) (s : Service)
      → IsFirst name s g.services
      → IsCalledBy dest s
      → Reaches g name dest
  through :
      (name next dest : String) (s : Service)
      → IsFirst name s g.services
      → IsCalledBy next s
      → Reaches g next dest
      → Reaches g name dest
