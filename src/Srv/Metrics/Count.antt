-- ===== src/Srv/Metrics/Count.antt =====
-- How often the samples of a run are taken.
use isotope.Base.{
  ℕ, ◌+◌, String, ◌==◌, nat_eq, Bool, true, false, ◌&&◌, if◌then◌else◌, List, [], ◌∷◌,
}
use isotope.Base.Float.{Float64}
use isotope.Base.Text.{decimal}
use isotope.Srv.Header.{Header}
use isotope.Srv.Execute.{Event, received, answered, recorded_sent, responded}
use isotope.Srv.Metrics.{Sample, inc, observe, samples_of}
use isotope.Srv.Metrics.Agree.{Agree}

abbrev pub same_values : List String → List String → Bool
same_values [] [] = true
same_values (v ∷ vs) (w ∷ ws) = v == w && same_values vs ws
same_values _ _ = false

-- An Inc, or an Observe of the number `x`, of the collector of the name with just these values of its
-- labels.
abbrev pub is_inc : String → List String → Sample → Bool
is_inc metric values (inc c vs) = c.name == metric && same_values vs values
is_inc metric values (observe c vs x) = false

abbrev pub is_observe : String → List String → Float64 → Sample → Bool
is_observe metric values x (inc c vs) = false
is_observe metric values x (observe c vs y) =
    c.name == metric && (same_values vs values && nat_eq y x)

abbrev pub count : (Sample → Bool) → List Sample → ℕ
count p [] = 0
count p (x ∷ xs) = (if p x then 1 else 0) + count p xs

-- A response of the service.
abbrev pub is_answer : String → Event → ℕ
is_answer name (answered n status) = if n == name then 1 else 0
is_answer name _ = 0

-- A call of RecordRequestSent for the service, with a size that is observed as `x`.
abbrev pub is_sized : (ℕ → Float64) → String → Float64 → Event → ℕ
is_sized float64 name x (recorded_sent n size) =
    if n == name then (if nat_eq (float64 size) x then 1 else 0) else 0
is_sized float64 name x _ = 0

-- A response with the status code, where `y` is `x`.
abbrev pub is_timed : String → Float64 → Float64 → Event → ℕ
is_timed code y x (responded status) =
    if decimal status == code then (if nat_eq y x then 1 else 0) else 0
is_timed code y x _ = 0

abbrev pub is_received : Event → ℕ
is_received received = 1
is_received _ = 0

module _ (float64 seconds : ℕ → Float64) (duration : ℕ) where
  abbrev taken : (Sample → Bool) → Event → ℕ
  taken p e = count p (samples_of float64 seconds duration e)
