-- ===== src/Tests/Mesh.antt =====
-- Three services together, where "c" calls "a" and "b", and a service that calls itself.
use isotope.Base.{ℕ, String, ◌==◌, ◌≢◌, none, if◌then◌else◌, ◌↔◌, refl, true, [], ◌∷◌, All, arith}
use isotope.Base.Int.{pos}
use isotope.Graph.{ServiceGraph}
use isotope.Graph.Script.Types.{Command, Commands}
use isotope.Graph.Script.Bounds.{AreBounded}
use isotope.Graph.ServiceType.{http}
use isotope.Graph.Svc.{Service}
use isotope.Srv.Lookup.{here}
use isotope.Srv.Request.{build_request, url_of}
use isotope.Srv.Mesh.{Responds, Halts, Reaches, calls}
use isotope.Srv.Header.{Header}
use isotope.Srv.Sent.{AllRequestsOf}
use isotope.Graph.Size.{ByteSize}
use isotope.Srv.Mesh.Reply.{CanSend, Responds-iff}
use isotope.Tests.Srv.{net, bounded_c}
use isotope.Tests.GraphTheorems.{three_services}

net-builds :
    (url : String) (size : ByteSize) (header : Header)
    → build_request net.new_request url size header ≢ none
unfolding build_request
net-builds url size header e = ground (arith, e)

three_services-CanSend : All (λ s. AllRequestsOf (CanSend net) s.script) three_services.services
three_services-CanSend = (
  (tt, tt),
  (
    tt,
    (
      (
        (
          (omega arith, net-builds (url_of "a") 516),
          ((omega arith, net-builds (url_of "b") 516), tt),
        ),
        (tt, tt),
      ),
      tt,
    ),
  ),
)

three_services-AreBounded : All (λ s. AreBounded s.script) three_services.services
three_services-AreBounded = ((refl, tt), (tt, (bounded_c, tt)))

Responds-iff_example :
    (Responds net three_services "c" 200 ↔ Halts three_services "c")
    × (Responds net three_services "c" 200 × Reaches three_services "c" "c" → ⊥)
Responds-iff_example =
    Responds-iff net three_services three_services-AreBounded three_services-CanSend "c"

-- "c" calls "a" once, and the others call nothing.
abbrev load_a : String → ℕ
load_a name = if name == "c" then 1 else 0

abbrev ok_status : ℕ
ok_status = 200

-- A valid graph of one service, whose script calls itself.
abbrev narcissus : Service
narcissus = record {
  name = "n";
  type = http;
  num_replicas = pos 1;
  is_entrypoint = true;
  error_rate = 0;
  response_size = 0;
  script = Commands.cons (Command.request (record { service_name = "n"; size = 0 })) Commands.nil;
}

abbrev alone : ServiceGraph
alone = record { services = narcissus ∷ [] }

narcissus_is_mute : Responds net alone "n" 200 → ⊥
narcissus_is_mute r =
    (Responds-iff net alone ((omega arith, tt), tt)
        (((omega arith, net-builds (url_of "n") 0), tt), tt) "n").1
      (r, calls "n" "n" narcissus (here [] refl) (omega arith))
