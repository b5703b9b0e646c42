-- ===== src/Graph/Marshal.antt =====
-- How encoding/json writes a graph, by the tag of ServiceGraph, and what is read of that.
use isotope.Base.{◌≡◌, refl, ap, map, ◌∙◌, List, [], ◌∷◌, All}
use isotope.Base.Result.{Result, ok, ◌>>=◌, >>=-eq-ok, >>=-of-ok}
use isotope.Runtime.{Runtime}
use isotope.Error.{Error}
use isotope.Json.{Json, Items, field, end, array, object}
use isotope.Json.Decode.{into_struct, decode_fields, decode_slice, into_items, same_key}
use isotope.Graph.{ServiceGraph}
use isotope.Graph.Svc.{Service}
use isotope.Graph.Svc.Marshal.{marshal_services}
use isotope.Graph.Svc.Marshal as SvcMarshal
use isotope.Graph.Svc.Marshal.RoundTrip.{IsReadableService, IsWritableService}
use isotope.Graph.Size.{ByteSize}
use isotope.Graph.Rounding.{round_service, round_graph, round_graph-IsValid, round_services-id}
use isotope.Graph.Svc.Marshal.RoundTrip as SvcRoundTrip
use isotope.Graph.Svc.Unmarshal as SvcUnmarshal
use isotope.Graph.Svc.Unmarshal.{Globals, initial}
use isotope.Graph.Unmarshal.{
  default_defaults, globals_of, unmarshal_metadata, unmarshal_services, unmarshal_json,
}
use isotope.Graph.Unmarshal.Accept.{unmarshal_json-accepts}
use isotope.Graph.Validation.Spec.{IsValid, validate_iff}

module _ (R : Runtime) where
  unfoldable pub marshal_json : ServiceGraph → Result Error Json
  marshal_json sg = do
    xs ← marshal_services R sg.services
    ok (object (field "services" (array xs) end))

  module _ (f : ByteSize → ByteSize) (f_zero : f 0 ≡ 0) where
    services_read_back :
        (services : List Service)
        → All (IsReadableService R f) services
        → (xs : Items) × (marshal_services R services ≡ ok xs)
          × (into_items (SvcUnmarshal.unmarshal_json R initial) xs
              ≡ ok (map (round_service f) services))
    unfolding marshal_services into_items
    services_read_back [] h = (Items.nil, refl, refl)
    services_read_back (s ∷ services) h =
        let (x, w, u) =
          >>=-eq-ok (SvcMarshal.marshal_json R s) _
            (SvcRoundTrip.service_read_back R initial f s f_zero refl h.0) in
        let (xs, ws, us) = services_read_back services h.1 in
        (Items.cons x xs, >>=-of-ok _ w ∙ >>=-of-ok _ ws, >>=-of-ok _ u ∙ >>=-of-ok _ us)

  abbrev graph_object : Items → Json
  graph_object xs = object (field "services" (array xs) end)

  metadata_read_back :
      (g : Globals) (xs : Items) → unmarshal_metadata R g (graph_object xs) ≡ ok default_defaults
  unfolding unmarshal_metadata into_struct decode_fields same_key
  metadata_read_back g xs = refl

  graph_read_back :
      (sg : ServiceGraph) (xs : Items)
      → into_items (SvcUnmarshal.unmarshal_json R initial) xs ≡ ok sg.services
      → unmarshal_services R (globals_of default_defaults) (graph_object xs) ≡ ok sg
  unfolding unmarshal_services into_struct decode_fields decode_slice same_key globals_of
  graph_read_back sg xs u = rw u

  -- A valid graph whose services can be written but for the rounding of sizes is written without
  -- error. What is written is read as the graph with each size replaced by the one that its text is
  -- read as, whatever the package variables are. It is assumed that the text of 0 is read as 0.
  pub graph_read_rounded :
      (f : ByteSize → ByteSize) (g : Globals) (sg : ServiceGraph)
      → f 0 ≡ 0
      → IsValid sg
      → All (IsReadableService R f) sg.services
      → (marshal_json sg >>= λ j. (unmarshal_json R j g).0) ≡ ok (round_graph f sg)
  unfolding marshal_json
  graph_read_rounded f g sg f_zero v h =
      let (xs, w, u) = services_read_back f f_zero sg.services h in
      rw w (
        unmarshal_json-accepts R _ g default_defaults (round_graph f sg) (metadata_read_back g xs)
          (graph_read_back (round_graph f sg) xs u)
          ((validate_iff (round_graph f sg)).1 (round_graph-IsValid f sg v)))

  -- A valid graph whose services can be written is written without error, and is read back from what
  -- is written, whatever the package variables are.
  pub graph_round_trip :
      (g : Globals) (sg : ServiceGraph)
      → IsValid sg
      → All (IsWritableService R) sg.services
      → (marshal_json sg >>= λ j. (unmarshal_json R j g).0) ≡ ok sg
  graph_round_trip g sg v h =
      graph_read_rounded (λ z. z) g sg refl v h
      ∙ ap (λ services. ok (record { services = services })) (round_services-id sg.services)
