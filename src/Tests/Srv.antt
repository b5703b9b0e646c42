-- ===== src/Tests/Srv.antt =====
-- The mock service at concrete data: "c" calls "a" and "b" side by side, and "a" fails.
use mathlib.Core.Path.{subst}
use isotope.Base.{
  ℕ, String, ◌==◌, ◌≡◌, refl, sym, ◌∙◌, ◌↔◌, Option, none, some, List, [], ◌∷◌, ◌++◌, All, arith,
  if◌then◌else◌, inl, ◌⊎◌, ◌≤◌,
}
use isotope.Base.Dict.{Dict, lookup, insert}
use isotope.Base.Text.{decimal}
use isotope.Base.Result.{ok, ok-injective}
use isotope.Graph.ServiceType.{ServiceType, http, grpc}
use isotope.Graph.Script.Types.{Command, RequestCommand}
use isotope.Srv.Lookup.{
  Handler, extract_service, handler_from_service_graph, handler_types, last_type, IsFirst,
  extract_service_types,
}
use isotope.Graph.Validation.Spec.{Defines}
use isotope.Srv.Header.{Header, extract_forwardable_header, lookup-extract_forwardable_header}
use isotope.Srv.Request.{Request, IsNewRequest, build_request, url_of}
use isotope.Srv.Execute.{
  CallError, Net, received, sent, recorded_sent, answered, drained, responded, recorded_response,
  Trace, serve_http, respond, execute, makes_payload, run_script, append_error,
  execute_request_command, send_request, receive, refuse, refused, no_service, no_answer,
}
use isotope.Srv.Sent.{AllRequestsOf}
use isotope.Srv.Runs.{Serves, Race}
use isotope.Srv.Race.{Race-iff, Race-loses}
use isotope.Srv.Failures.{Tells, Runs-Tells}
use isotope.Srv.Total.{Fits, serve_http-Serves}
use isotope.Srv.Closed.{total}
use isotope.Srv.Metrics.Count.{is_answer}
use isotope.Srv.Work.Sums.{work_all}
use isotope.Srv.Work.{is_sent, one_call, calls_to, Serves-Does}
use isotope.Srv.Serve.{Serves-IsStatusOf, IsInner, IsStatusOf}
use isotope.Tests.GraphTheorems.{three_services, service_c, script_c}
use isotope.Graph.Script.Bounds.{AreBounded}

abbrev pub net_append : Option (List CallError) → List CallError → List CallError
net_append none e = e
net_append (some errs) e = errs ++ e

abbrev pub net : Net
net = record {
  new_request = λ method url size.
      some (record { method = method; url = url; header = []; body_size = size });
  max_slice = 140737488355328;
  Err = List CallError;
  call_error = λ e. e ∷ [];
  append = net_append;
}

-- "a" responds with an internal error, and every other service with success.
abbrev pub responses : String → Option ℕ
responses name = if name == "a" then some 500 else some 200

abbrev pub incoming : Header
incoming = ("Accept", "text/html" ∷ []) ∷ (("X-Request-Id", "7" ∷ []) ∷ [])

abbrev pub three_types : Dict ServiceType
three_types = ("a", http) ∷ (("b", http) ∷ (("c", grpc) ∷ []))

abbrev pub handler_c : Handler
handler_c = record { service = service_c; service_types = three_types }

abbrev pub request_to : String → Request
request_to url = record {
  method = "GET";
  url = url;
  header = ("X-Request-Id", "7" ∷ []) ∷ [];
  body_size = 516;
}

-- Its second step, the sleep, is not run.
abbrev pub trace_c : Trace
trace_c =
    received
    ∷ sent (request_to "http://a:8080")
    ∷ answered "a" 500
    ∷ recorded_sent "a" 516
    ∷ drained "a"
    ∷ sent (request_to "http://b:8080")
    ∷ answered "b" 200
    ∷ recorded_sent "b" 516
    ∷ drained "b"
    ∷ responded 500
    ∷ recorded_response 0 500
    ∷ []

pub made_c : handler_from_service_graph three_services "c" ≡ some handler_c
unfolding handler_from_service_graph extract_service extract_service_types insert
made_c = refl

served_c : serve_http net responses handler_c incoming ≡ ok trace_c
unfolding serve_http run_script execute makes_payload append_error execute_request_command
    send_request receive refuse build_request url_of lookup insert decimal
    extract_forwardable_header
served_c = refl

pub payloads_c : AllRequestsOf (Fits net) script_c
payloads_c = ((omega arith, (omega arith, tt)), (tt, tt))

pub bounded_c : AreBounded script_c
bounded_c = ((omega arith, (omega arith, tt)), (refl, tt))

pub handler_c-Serves : Serves net handler_c incoming trace_c
handler_c-Serves =
    let (t, e, runs) = serve_http-Serves net responses handler_c incoming bounded_c payloads_c in
    subst (Serves net handler_c incoming) (ok-injective (sym e ∙ served_c)) runs

serve_http-Serves_example :
    (t : Trace) × (serve_http net responses handler_c incoming ≡ ok t)
    × Serves net handler_c incoming t
serve_http-Serves_example = serve_http-Serves net responses handler_c incoming bounded_c payloads_c

Serves-IsStatusOf_example :
    (body : Trace) × (status : ℕ) × (trace_c ≡ received ∷ (body ++ respond status))
    × All IsInner body
    × IsStatusOf net body status
Serves-IsStatusOf_example = Serves-IsStatusOf net handler_c incoming trace_c handler_c-Serves

pub net-IsNewRequest : IsNewRequest net.new_request
net-IsNewRequest method url body_size r h = ground (arith, h)

abbrev IsSmall : RequestCommand → Type 0
IsSmall r = r.size ≡ 516

abbrev call_a : Command
call_a = Command.request (record { service_name = "a"; size = 516 })

-- The service "a" is not in the map.
ran :
    execute_request_command net (record { service_name = "a"; size = 516 }) [] [] (some 200)
    ≡ (refused (no_service "a") ∷ [], some (no_service "a" ∷ []))
unfolding execute_request_command refuse lookup
ran = refl

Runs-Tells_example : Tells net (refused (no_service "a") ∷ []) (some (no_service "a" ∷ []))
unfolding lookup
Runs-Tells_example =
    Runs-Tells net [] [] call_a (refused (no_service "a") ∷ []) (some (no_service "a" ∷ []))
      (some 200, ran, inl refl)

Race-loses_example :
    Race net ((no_answer "a" ∷ []) ∷ ((no_answer "b" ∷ []) ∷ [])) (some (no_answer "b" ∷ []))
Race-loses_example = Race-loses net (no_answer "a" ∷ []) (no_answer "b" ∷ [])

Race-iff_example :
    (some (no_answer "b" ∷ []) ≡ none) ↔ ((no_answer "a" ∷ []) ∷ ((no_answer "b" ∷ []) ∷ []) ≡ [])
Race-iff_example =
    Race-iff net ((no_answer "a" ∷ []) ∷ ((no_answer "b" ∷ []) ∷ [])) (some (no_answer "b" ∷ []))
      Race-loses_example

handler_types_example :
    ((handler_from_service_graph three_services "c" ≡ none)
      × (Defines three_services.services "c" → ⊥))
    ⊎ ((h : Handler) × (handler_from_service_graph three_services "c" ≡ some h)
        × IsFirst "c" h.service three_services.services
        × ((other : String)
            → lookup h.service_types other ≡ last_type none three_services.services other))
handler_types_example = handler_types three_services "c"

lookup-extract_forwardable_header_example :
    lookup (extract_forwardable_header incoming) "X-Request-Id" ≡ some ("7" ∷ [])
unfolding lookup
lookup-extract_forwardable_header_example =
    lookup-extract_forwardable_header incoming "X-Request-Id"

Serves-Does_example :
    (body : Trace) × (status : ℕ) × (trace_c ≡ received ∷ (body ++ respond status))
    × (((status ≡ 200)
          × (total is_sent body ≡ work_all one_call handler_c.service.script)
          × ((dest : String)
              → total (is_answer dest) body ≡ work_all (calls_to dest) handler_c.service.script))
        ⊎ ((status ≡ 500)
            × (total is_sent body ≤ work_all one_call handler_c.service.script)
            × ((dest : String)
                → total (is_answer dest) body ≤ work_all (calls_to dest) handler_c.service.script)))
Serves-Does_example = Serves-Does net handler_c incoming trace_c handler_c-Serves
