-- ===== src/Reverse/Debounce.antt =====
-- When the detector takes over a new state: the debounce over a history of readings.
use rpi_speeduino_dashboard.Common.{
  ℕ, ◌+◌, ◌*◌, ◌≤◌, ◌<◌, ◌≡◌, ◌≢◌, ◌⊎◌, inl, inr, sym, ap, ◌∙◌, Bool, List, [], ◌∷◌, All, arith,
}
use rpi_speeduino_dashboard.Reverse.Detector.{Detector, same_bool, set_state, debounce}
use rpi_speeduino_dashboard.Reverse.Readings.{Reading, observe, observe_all, observe_all-settings}

-- No reading is earlier than one before it.
abbrev pub IsOrdered : List Reading → Type 0
IsOrdered [] = Unit {0}
IsOrdered (o ∷ os) = All (λ p. p.time ≤ o.time) os × IsOrdered os

-- Every reading after the last transition has the pending value.
abbrev pub IsSettled : Detector → List Reading → Type 0
IsSettled d os = All (λ o. d.last_transition < o.time → o.value ≡ d.pending_state) os

-- The two ways of a reading: it differs from the pending value and restarts the wait, or it agrees.
pub observe_cases :
    (o : Reading) (d : Detector)
    → d.last_transition ≤ o.time
    → (((observe o d).pending_state ≡ o.value)
        × ((observe o d).last_transition ≡ o.time)
        × ((observe o d).engaged ≡ d.engaged)
        × (o.value ≢ d.pending_state))
      ⊎ (((observe o d).pending_state ≡ d.pending_state)
          × ((observe o d).last_transition ≡ d.last_transition)
          × (o.value ≡ d.pending_state)
          × (((observe o d).engaged ≡ d.engaged)
              ⊎ (((observe o d).engaged ≡ d.pending_state)
                  × (d.last_transition + d.config.debounce_ms * 1000000 ≤ o.time))))
unfolding observe debounce set_state same_bool
observe_cases o d h = ground arith

pub last_transition-le :
    (os : List Reading) (d : Detector) (t : ℕ)
    → d.last_transition ≤ t
    → All (λ o. o.time ≤ t) os
    → IsOrdered os
    → All (λ o. d.last_transition ≤ o.time) os
    → (observe_all os d).last_transition ≤ t
unfolding observe_all
last_transition-le [] d t h a i b = h
last_transition-le (o ∷ os) d t h a i b =
    let rest = last_transition-le os d o.time b.0 i.0 i.1 b.1 in
    omega (arith, observe_cases o (observe_all os d) rest)

-- The facts on which a history is settled.
abbrev pub Follows : Detector → List Reading → Type 0
Follows d os = IsOrdered os × All (λ o. d.last_transition ≤ o.time) os

flipped-IsSettled :
    (t : ℕ) (v : Bool) (os : List Reading)
    → All (λ o. o.time ≤ t) os
    → All (λ o. t < o.time → o.value ≡ v) os
flipped-IsSettled t v [] a = tt
flipped-IsSettled t v (o ∷ os) a = (λ h. absurd (omega arith), flipped-IsSettled t v os a.1)

Settled-after :
    (l l' : ℕ) (p p' : Bool) (os : List Reading)
    → l' ≡ l
    → p' ≡ p
    → All (λ o. l < o.time → o.value ≡ p) os
    → All (λ o. l' < o.time → o.value ≡ p') os
Settled-after l l' p p' os el ep a = rw (el, ep) a

observe_all-IsSettled :
    (os : List Reading) (d : Detector) → Follows d os → IsSettled (observe_all os d) os
unfolding observe_all
observe_all-IsSettled [] d f = tt
observe_all-IsSettled (o ∷ os) d ((a, i), (b, bs)) =
    let before = observe_all os d in
    let settled = observe_all-IsSettled os d (i, bs) in
    elim (observe_cases o before (last_transition-le os d o.time b a i bs)) [
      | inl (p, t, _, _) ↦ (
        λ h. absurd (omega arith),
        Settled-after o.time _ o.value _ os t p (flipped-IsSettled o.time o.value os a),
      )
      | inr (p, t, v, _) ↦ (
        λ h. v ∙ sym p,
        Settled-after before.last_transition _ before.pending_state _ os t p settled,
      )
    ]

-- Each reading is at least `ms` milliseconds older than a time, or has a value.
abbrev pub IsSteady : ℕ → ℕ → Bool → List Reading → Type 0
IsSteady now ms v os = All (λ o. (o.time + ms * 1000000 ≤ now) ⊎ (o.value ≡ v)) os

IsSteady-settled :
    (l now ms : ℕ) (v : Bool) (os : List Reading)
    → l + ms * 1000000 ≤ now
    → All (λ o. l < o.time → o.value ≡ v) os
    → IsSteady now ms v os
IsSteady-settled l now ms v [] h a = tt
IsSteady-settled l now ms v (o ∷ os) h a =
    (ground (arith, a.0), IsSteady-settled l now ms v os h a.1)

-- After any history of readings in the order of time, when one more reading changes whether
-- reverse is engaged, the new state is its value, and every reading of the debounce time before it
-- had that value too.
pub observe-IsSteady :
    (o : Reading) (os : List Reading) (d : Detector)
    → Follows d (o ∷ os)
    → (observe o (observe_all os d)).engaged ≢ (observe_all os d).engaged
    → ((observe o (observe_all os d)).engaged ≡ o.value)
      × IsSteady o.time d.config.debounce_ms o.value os
observe-IsSteady o os d ((a, i), (b, bs)) changed =
    let before = observe_all os d in
    let settled = observe_all-IsSettled os d (i, bs) in
    elim (observe_cases o before (last_transition-le os d o.time b a i bs)) [
      | inl (_, _, same, _) ↦ absurd (changed same)
      | inr (_, _, v, inl same) ↦ absurd (changed same)
      | inr (_, _, v, inr (e, w)) ↦ (
        e ∙ sym v,
        IsSteady-settled before.last_transition o.time d.config.debounce_ms o.value os
            (rw (ap (λ c. c.debounce_ms) ((observe_all-settings os d).0)) at w) (rw v settled),
      )
    ]
