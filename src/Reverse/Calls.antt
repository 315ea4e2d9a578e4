-- ===== src/Reverse/Calls.antt =====
-- The callback's calls over any history, and the sources that each mode turns on.
use text.Mathlib.TextEquality.{eq_iff}
use rpi_speeduino_dashboard.Common.{
  ℕ, ◌≡◌, ◌⊎◌, Bool, true, not, List, [], ◌∷◌, String, str_eq, arith,
}
use rpi_speeduino_dashboard.Reverse.Gpio.{Answers}
use rpi_speeduino_dashboard.Reverse.Detector.{
  ReverseConfig, Source, Detector, same_bool, effective_sources, init, set_state, debounce,
}
use rpi_speeduino_dashboard.Reverse.Readings.{
  Input, run, readings, Reading, observe, observe_all, run-readings,
}

-- The calls, the latest first, alternate, and lead from the first state to the last.
abbrev pub Alternates : Bool → List (Bool × Source) → Bool → Type 0
Alternates first [] last = first ≡ last
Alternates first ((v, source) ∷ calls) last = (v ≡ last) × Alternates first calls (not v)

-- The callback is set and has been told of every change since a state.
pub record IsInformed (first : Bool) (d : Detector) : Type 0 where
  pub is_set : d.has_callback ≡ true
  pub told : Alternates first d.calls d.engaged

observe-IsInformed :
    (first : Bool) (o : Reading) (d : Detector)
    → IsInformed first d
    → IsInformed first (observe o d)
unfolding observe debounce set_state same_bool
observe-IsInformed first o d v = ground arith

observe_all-IsInformed :
    (first : Bool) (os : List Reading) (d : Detector)
    → IsInformed first d
    → IsInformed first (observe_all os d)
unfolding observe_all
observe_all-IsInformed first [] d v = v
observe_all-IsInformed first (o ∷ os) d v =
    observe-IsInformed first o (observe_all os d) (observe_all-IsInformed first os d v)

-- Over any history of frames and levels the callback, once set, is told of each change of the state
-- and of nothing else: its calls alternate, and the last of them is the current state.
pub run-IsInformed :
    (first : Bool) (xs : List Input) (d : Detector)
    → IsInformed first d
    → IsInformed first (run xs d)
run-IsInformed first xs d v =
    rw (run-readings xs d) (observe_all-IsInformed first (readings d.config d.line xs) d v)

-- The modes that fix the source.
abbrev pub IsFixed : String → Type 0
IsFixed mode = (mode ≡ "gpio") ⊎ ((mode ≡ "can") ⊎ (mode ≡ "speeduino_can"))

-- In the modes "gpio", "can" and "speeduino_can" exactly one source is on after `init`, whatever the
-- single switches say: GPIO in the first, CAN in the other two.
init-source :
    (now : ℕ) (a : Answers) (c : ReverseConfig) (d : Detector)
    → IsFixed c.detection_mode
    → ((init now a c d).config.gpio_enabled ≡ str_eq c.detection_mode "gpio")
      × ((init now a c d).config.can_enabled ≡ not (init now a c d).config.gpio_enabled)
unfolding init effective_sources
init-source now a c d h = ground (
  arith,
  eq_iff c.detection_mode "gpio",
  eq_iff c.detection_mode "can",
  eq_iff c.detection_mode "speeduino_can",
  eq_iff "can" "gpio",
  eq_iff "speeduino_can" "gpio",
)
