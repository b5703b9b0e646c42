-- ===== src/Tests/Lock.antt =====
-- Two goroutines that read graphs: one with a default size of requests, and one with a default
-- script that calls a service without naming a size.
use isotope.Base.{ℕ, ◌≡◌, nat_eq, if◌then◌else◌, false, none, some, refl, arith}
use isotope.Base.Int.{pos}
use isotope.Base.Result.{ok}
use isotope.Json.{Json, field, end, nil, cons, integer, number, array, object}
use isotope.Graph.Script.Types.{Command, Commands}
use isotope.Graph.Svc.Unmarshal.{initial}
use isotope.Graph.Unmarshal.{
  Defaults, default_defaults, globals_of, unmarshal_metadata, unmarshal_services,
}
use isotope.Graph.Lock.{
  Graph, start, waiting, locked, half_set, running, ran, half_restored, restored, parsed, holding,
  System, update, with_service, with_request, read_defaults, acquire, set_service, set_request,
  run as run_services, restore_service, restore_request, release, Step, pick, Reach, begin, next,
}
use isotope.Graph.Lock.Atomic.{mutual_exclusion, quiet_globals, IsSteady}
use isotope.Graph.Lock.Progress.{all_return, HaveReturned, Only}
use isotope.Graph.Lock.Leak.{defaults_leak}
use isotope.Tests.Sample.{sample}
use isotope.Tests.Graph.{run, call}

abbrev sized_json : Json
sized_json =
    object (field "defaults" (object (field "requestSize" (number (integer (pos 516))) end)) end)

abbrev calling_json : Json
calling_json =
    object (field "defaults" (object (field "script" (array (cons (call "a") nil)) end)) end)

abbrev jobs : ℕ → Json
jobs i = if nat_eq i 0 then sized_json else calling_json

abbrev sized : Defaults
sized = record default_defaults { request_size = 516 }

-- The size that the other goroutine's defaults give.
abbrev calling : Defaults
calling = record default_defaults {
  script = Commands.cons (Command.request (record { service_name = "a"; size = 516 })) Commands.nil;
}

sized_read : unmarshal_metadata sample initial sized_json ≡ ok sized
unfolding run unmarshal_metadata
sized_read = refl

calling_read : unmarshal_metadata sample (globals_of sized) calling_json ≡ ok calling
unfolding run unmarshal_metadata globals_of
calling_read = refl

sized_json-IsSteady : IsSteady sample sized_json
unfolding run unmarshal_metadata
sized_json-IsSteady g = refl

-- The first goroutine has the lock, and its defaults are set.
abbrev under_sized : System
under_sized = record {
  shared = record {
    globals =
        with_request (with_service initial (globals_of sized).default_service)
          (globals_of sized).default_request_command;
    lock = some 0;
  };
  pc =
      update
        (update (update (update (λ _. start) 0 (waiting sized)) 0 (locked sized)) 0
          (half_set sized initial.default_service))
        0 (running sized initial.default_service initial.default_request_command);
}

module _ (which : ℕ → Json) (first : unmarshal_metadata sample initial (which 0) ≡ ok sized) where
  Reach-under_sized : Reach sample which under_sized
  Reach-under_sized =
      next
        (next (next (next begin (pick 0 (read_defaults first))) (pick 0 (acquire refl)))
          (pick 0 set_service))
        (pick 0 set_request)

mutual_exclusion_example : ◌≡◌ {A = ℕ} 0 0
mutual_exclusion_example = mutual_exclusion sample (Reach-under_sized jobs sized_read) 0 0 refl refl

-- The first goroutine has read its services and has released the lock.
abbrev sized_services : Graph
sized_services = unmarshal_services sample under_sized.shared.globals sized_json

abbrev after_sized : System
after_sized = record {
  shared = record { globals = initial; lock = none };
  pc =
      update
        (update
          (update
            (update under_sized.pc 0
              (ran sized initial.default_service initial.default_request_command sized_services))
            0 (half_restored sized initial.default_request_command sized_services))
          0 (restored sized_services))
        0 (parsed sized_services);
}

Reach-after_sized : Reach sample jobs after_sized
Reach-after_sized =
    next
      (next
        (next (next (Reach-under_sized jobs sized_read) (pick 0 run_services))
          (pick 0 restore_service))
        (pick 0 restore_request))
      (pick 0 release)

nobody_holds : (i : ℕ) → holding (after_sized.pc i) ≡ false
nobody_holds i = ground arith

quiet_globals_example : after_sized.shared.globals ≡ initial
quiet_globals_example = quiet_globals sample Reach-after_sized nobody_holds

under_sized-Only : Only 2 under_sized
under_sized-Only i h = ground (arith, h)

all_return_example : (t : System) × Reach sample jobs t × HaveReturned sample 2 t
all_return_example = all_return sample 2 (Reach-under_sized jobs sized_read) under_sized-Only

defaults_leak_example : (t : System) × Step sample jobs under_sized t × (t.pc 1 ≡ waiting calling)
defaults_leak_example =
    defaults_leak sample (Reach-under_sized jobs sized_read) 0 sized initial.default_service
      initial.default_request_command refl 1 calling refl calling_read
