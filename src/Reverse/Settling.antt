-- ===== src/Reverse/Settling.antt =====
-- That a steady reading is taken over, and that two sources that contradict each other are not.
use rpi_speeduino_dashboard.Common.{
  ℕ, ◌+◌, ◌*◌, ◌≤◌, ◌≡◌, ◌≢◌, refl, ◌∙◌, Bool, List, [], ◌∷◌, All, arith,
}
use rpi_speeduino_dashboard.Reverse.Detector.{Detector, same_bool, set_state, debounce}
use rpi_speeduino_dashboard.Reverse.Readings.{Reading, observe, observe_all, observe_all-settings}

-- A detector waits for a value since a time at the latest.
record IsWaiting (v : Bool) (t : ℕ) (d : Detector) : Type 0 where
  pending : d.pending_state ≡ v
  since : d.last_transition ≤ t

observe-IsWaiting :
    (v : Bool) (t : ℕ) (o : Reading) (d : Detector)
    → o.value ≡ v
    → IsWaiting v t d
    → IsWaiting v t (observe o d)
unfolding observe debounce set_state same_bool
observe-IsWaiting v t o d e w = ground arith

observe_all-IsWaiting :
    (v : Bool) (t : ℕ) (os : List Reading) (d : Detector)
    → All (λ o. o.value ≡ v) os
    → IsWaiting v t d
    → IsWaiting v t (observe_all os d)
unfolding observe_all
observe_all-IsWaiting v t [] d a w = w
observe_all-IsWaiting v t (o ∷ os) d a w =
    observe-IsWaiting v t o _ a.0 (observe_all-IsWaiting v t os d a.1 w)

first-IsWaiting :
    (o : Reading) (d : Detector)
    → d.last_transition ≤ o.time
    → IsWaiting o.value o.time (observe o d)
unfolding observe debounce set_state same_bool
first-IsWaiting o d h = ground arith

last-engaged :
    (v : Bool) (t : ℕ) (o : Reading) (d : Detector)
    → o.value ≡ v
    → IsWaiting v t d
    → t + d.config.debounce_ms * 1000000 ≤ o.time
    → (observe o d).engaged ≡ v
unfolding observe debounce set_state same_bool
last-engaged v t o d e w h = ground arith

-- If the readings from one on all have its value, and the last of them comes at least the debounce
-- time after it, the detector has taken that value over; the first one must not come before the
-- last transition of the detector that it meets.
pub observe-engaged :
    (o first : Reading) (os : List Reading) (d : Detector)
    → d.last_transition ≤ first.time
    → All (λ p. p.value ≡ first.value) (o ∷ os)
    → first.time + d.config.debounce_ms * 1000000 ≤ o.time
    → (observe o (observe_all os (observe first d))).engaged ≡ first.value
unfolding observe_all
observe-engaged o first os d h a w =
    let start = observe first d in
    let settings = (observe_all-settings os start).0 ∙ (observe_all-settings (first ∷ []) d).0 in
    last-engaged first.value first.time o (observe_all os start) a.0
      (observe_all-IsWaiting first.value first.time os start a.1 (first-IsWaiting first d h))
      (rw settings w)

-- The value of the latest reading, or what was pending.
abbrev latest : Bool → List Reading → Bool
latest p [] = p
latest p (o ∷ os) = o.value

-- Each reading contradicts the one before it.
abbrev pub IsContradictory : Bool → List Reading → Type 0
IsContradictory p [] = Unit {0}
IsContradictory p (o ∷ os) = (o.value ≢ latest p os) × IsContradictory p os

observe-contradicted :
    (o : Reading) (d : Detector)
    → o.value ≢ d.pending_state
    → ((observe o d).pending_state ≡ o.value)
      × ((observe o d).engaged ≡ d.engaged)
      × ((observe o d).calls ≡ d.calls)
unfolding observe debounce set_state same_bool
observe-contradicted o d h = ground arith

contradicted :
    (os : List Reading) (d : Detector)
    → IsContradictory d.pending_state os
    → ((observe_all os d).pending_state ≡ latest d.pending_state os)
      × ((observe_all os d).engaged ≡ d.engaged)
      × ((observe_all os d).calls ≡ d.calls)
unfolding observe_all
contradicted [] d c = (refl, refl, refl)
contradicted (o ∷ os) d c =
    let (p, e, k) = contradicted os d c.1 in
    let (p', e', k') = observe-contradicted o (observe_all os d) (rw p c.0) in (p', e' ∙ e, k' ∙ k)

-- As long as each reading contradicts the one before, as when CAN and GPIO disagree and take turns,
-- the detector never changes its state and never calls back, however long this goes on.
pub observe_all-contradicted :
    (os : List Reading) (d : Detector)
    → IsContradictory d.pending_state os
    → ((observe_all os d).engaged ≡ d.engaged) × ((observe_all os d).calls ≡ d.calls)
observe_all-contradicted os d c = let (_, e, k) = contradicted os d c in (e, k)
