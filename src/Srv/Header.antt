-- ===== src/Srv/Header.antt =====
-- service/pkg/srv/header.go: the headers of an incoming request that go on with the outgoing ones.
use isotope.Base.{
  String, ◌==◌, eq_iff, ◌≡◌, refl, Bool, true, false, ◌||◌, Option, none, some, List, [], ◌∷◌,
  arith, Option-cases, inl, inr, ◌∙◌, if◌then◌else◌,
}
use isotope.Base.Dict.{Dict, lookup, insert, lookup-insert, IsMap, insert-IsMap}

abbrev pub Header : Type 0
Header = Dict (List String)

abbrev pub forwardable_headers : List String
forwardable_headers =
    "X-Request-Id" ∷ "X-B3-Traceid" ∷ "X-B3-Spanid" ∷ "X-B3-Parentspanid" ∷ "X-B3-Sampled"
    ∷ "X-B3-Flags" ∷ "X-Ot-Span-Context" ∷ []

-- `init`
add_keys : Dict Bool → List String → Dict Bool
add_keys set [] = set
add_keys set (key ∷ keys) = add_keys (insert set key true) keys

forwardable_headers_set : Dict Bool
unfolding add_keys
forwardable_headers_set = add_keys [] forwardable_headers

forward_key : Header → Header → String → Header
forward_key header forwardable key = elim (lookup header key) [
  | none ↦ forwardable
  | some values ↦ insert forwardable key values
]

-- The loop over the keys of the set.
forward_keys : Header → Header → Dict Bool → Header
unfolding forward_key
forward_keys header forwardable [] = forwardable
forward_keys header forwardable ((key, _) ∷ set) =
    forward_keys header (forward_key header forwardable key) set

unfoldable pub extract_forwardable_header : Header → Header
unfolding forward_keys forwardable_headers_set
extract_forwardable_header header = forward_keys header [] forwardable_headers_set

abbrev pub contains : List String → String → Bool
contains [] key = false
contains (k ∷ keys) key = (k == key) || contains keys key

has_entry : Dict Bool → String → Bool
has_entry [] key = false
has_entry ((k, _) ∷ set) key = (k == key) || has_entry set key

or_else : Option (List String) → Option (List String) → Option (List String)
or_else none b = b
or_else (some a) b = some a

lookup-forward_key :
    (header forwardable : Header) (k key : String)
    → lookup (forward_key header forwardable k) key ≡ (
        if k == key
        then or_else (lookup header k) (lookup forwardable key)
        else lookup forwardable key)
unfolding forward_key or_else
lookup-forward_key header forwardable k key = elim (Option-cases (lookup header k)) [
  | inl none_found ↦ rw none_found (ground arith)
  | inr (values, found) ↦ rw found (ground (arith, lookup-insert forwardable k values key))
]

lookup-forward_keys :
    (header : Header) (set : Dict Bool) (forwardable : Header) (key : String)
    → lookup (forward_keys header forwardable set) key ≡ (
        if has_entry set key
        then or_else (lookup header key) (lookup forwardable key)
        else lookup forwardable key)
unfolding forward_keys has_entry or_else
lookup-forward_keys header [] forwardable key = refl
lookup-forward_keys header ((k, b) ∷ set) forwardable key = ground (
  arith,
  lookup-forward_keys header set (forward_key header forwardable k) key,
  lookup-forward_key header forwardable k key,
  eq_iff k key,
)

has_entry-contains :
    (key : String) → has_entry forwardable_headers_set key ≡ contains forwardable_headers key
unfolding forwardable_headers_set has_entry add_keys insert
has_entry-contains key = refl

or_else-none : (a : Option (List String)) → or_else a none ≡ a
unfolding or_else
or_else-none none = refl
or_else-none (some a) = refl

-- A header goes on, with its values, exactly if it is one of the seven.
pub lookup-extract_forwardable_header :
    (header : Header) (key : String)
    → lookup (extract_forwardable_header header) key
      ≡ (if contains forwardable_headers key then lookup header key else none)
unfolding extract_forwardable_header lookup
lookup-extract_forwardable_header header key =
    lookup-forward_keys header forwardable_headers_set [] key
    ∙ rw (has_entry-contains key, or_else-none (lookup header key)) refl

forward_keys-IsMap :
    (header : Header) (set : Dict Bool) (forwardable : Header)
    → IsMap forwardable
    → IsMap (forward_keys header forwardable set)
unfolding forward_keys
forward_keys-IsMap header [] forwardable h = h
forward_keys-IsMap header ((k, b) ∷ set) forwardable h =
    forward_keys-IsMap header set (forward_key header forwardable k)
      (elim (Option-cases (lookup header k)) [
        | inl missing ↦ rw (missing, forward_key) h
        | inr (values, found) ↦ rw (found, forward_key) (insert-IsMap forwardable k values h)
      ])

pub extract_forwardable_header-IsMap : (header : Header) → IsMap (extract_forwardable_header header)
unfolding extract_forwardable_header
extract_forwardable_header-IsMap header = forward_keys-IsMap header forwardable_headers_set [] tt
