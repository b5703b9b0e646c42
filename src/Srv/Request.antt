-- ===== src/Srv/Request.antt =====
-- service/pkg/srv/request.go. `http.NewRequest` is a parameter, with what it documents. That
-- `make([]byte, size)` panics for a large size is in Execute, with what then returns.
use mathlib.Core.Path.{subst}
use isotope.Base.{
  String, ◌<>◌, ◌==◌, eq_iff, ◌≡◌, sym, refl, ap, ◌∙◌, inl, inr, Option, none, some, List, [], ◌∷◌,
  arith, if◌then◌else◌, Option-cases, Bool-cases,
}
use isotope.Base.Text.{decimal}
use isotope.Base.Dict.{lookup, insert, lookup-insert, IsAbsent, IsMap}
use isotope.Consts.{service_port}
use isotope.Graph.Size.{ByteSize}
use isotope.Srv.Header.{Header}

pub record Request : Type 0 where
  pub method : String
  pub url : String
  pub header : Header
  -- the number of bytes of the payload, all of them zero
  pub body_size : ByteSize

-- `http.NewRequest(method, url, body)`, which is `none` on an error
abbrev pub NewRequest : Type 0
NewRequest = String → String → ByteSize → Option Request

-- A new request has the method, url and body that were asked for, and an empty header.
abbrev pub IsNewRequest : NewRequest → Type 0
IsNewRequest new_request =
    (method url : String) (body_size : ByteSize) (r : Request)
    → new_request method url body_size ≡ some r
    → r ≡ record { method = method; url = url; header = []; body_size = body_size }

unfoldable pub url_of : String → String
url_of name = "http://" <> (name <> (":" <> decimal service_port))

-- The loop of copyHeader over the entries of a header.
copy_entries : Header → Header → Header
copy_entries into [] = into
copy_entries into ((key, values) ∷ header) = copy_entries (insert into key values) header

copy_header : Request → Header → Request
unfolding copy_entries
copy_header r header = record {
  method = r.method;
  url = r.url;
  header = copy_entries r.header header;
  body_size = r.body_size;
}

copied : Option Request → Header → Option Request
copied none header = none
copied (some r) header = some (copy_header r header)

unfoldable pub build_request : NewRequest → String → ByteSize → Header → Option Request
unfolding copied copy_header
build_request new_request url size header = copied (new_request "GET" url size) header

-- A key that the header copied has, with the values of its last entry, or else the old ones.
last_values : Header → Option (List String) → String → Option (List String)
last_values [] old key = old
last_values ((k, values) ∷ header) old key =
    last_values header (if k == key then some values else old) key

lookup-copy_entries :
    (header into : Header) (key : String)
    → lookup (copy_entries into header) key ≡ last_values header (lookup into key) key
unfolding copy_entries last_values
lookup-copy_entries [] into key = refl
lookup-copy_entries ((k, values) ∷ header) into key =
    lookup-copy_entries header (insert into k values) key
    ∙ ap (λ old. last_values header old key) (lookup-insert into k values key)

last_values-absent :
    (header : Header) (old : Option (List String)) (key : String)
    → IsAbsent key header
    → last_values header old key ≡ old
unfolding last_values
last_values-absent [] old key h = refl
last_values-absent ((k, values) ∷ header) old key h =
    last_values-absent header (if k == key then some values else old) key h.1
    ∙ ground (arith, eq_iff k key)

last_values-lookup :
    (header : Header) (key : String)
    → IsMap header
    → last_values header none key ≡ lookup header key
unfolding last_values lookup
last_values-lookup [] key h = refl
last_values-lookup ((k, values) ∷ header) key h = elim (Bool-cases (k == key)) [
  | inl same ↦
      last_values-absent header (if k == key then some values else none) key
        (subst (λ x. IsAbsent x header) ((eq_iff k key).0 same) h.0)
      ∙ ground arith
  | inr differs ↦ ground (arith, last_values-lookup header key h.1)
]

-- A request that is built goes to the url asked for.
pub build_request-url :
    (new_request : NewRequest) (url : String) (size : ByteSize) (header : Header) (r : Request)
    → IsNewRequest new_request
    → build_request new_request url size header ≡ some r
    → r.url ≡ url
unfolding build_request copied copy_header
build_request-url new_request url size header r n h =
    elim (Option-cases (new_request "GET" url size)) [
      | inl refused ↦ absurd (ground arith)
      | inr (q, made) ↦
          of_parts q (n "GET" url size q made) (ground (arith, ap (λ o. copied o header) made))
    ]
  where
    of_parts :
        (q : Request)
        → q ≡ record { method = "GET"; url = url; header = []; body_size = size }
        → copy_header q header ≡ r
        → r.url ≡ url
    of_parts q e e' = sym (ap (λ x. x.url) e') ∙ ap (λ x. x.url) e

-- What a request that goes out must be.
abbrev pub IsGet : Request → String → ByteSize → Header → Type 0
IsGet r url size header =
    (r.method ≡ "GET")
    × (r.url ≡ url)
    × (r.body_size ≡ size)
    × ((key : String) → lookup r.header key ≡ lookup header key)

-- A request that is built is a GET of the url with the payload and the header asked for.
pub build_request-IsGet :
    (new_request : NewRequest) (url : String) (size : ByteSize) (header : Header) (r : Request)
    → IsNewRequest new_request
    → IsMap header
    → build_request new_request url size header ≡ some r
    → IsGet r url size header
unfolding build_request copied copy_header lookup
build_request-IsGet new_request url size header r n m h =
    elim (Option-cases (new_request "GET" url size)) [
      | inl refused ↦ absurd (ground arith)
      | inr (q, made) ↦
          of_parts q (n "GET" url size q made) (ground (arith, ap (λ o. copied o header) made))
    ]
  where
    of_parts :
        (q : Request)
        → q ≡ record { method = "GET"; url = url; header = []; body_size = size }
        → copy_header q header ≡ r
        → IsGet r url size header
    of_parts q e e' =
        subst (λ x. IsGet x url size header) e'
          (subst (λ x. IsGet (copy_header x header) url size header) (sym e)
            (
              refl,
              refl,
              refl,
              λ key. lookup-copy_entries header [] key ∙ last_values-lookup header key m,
            ))
