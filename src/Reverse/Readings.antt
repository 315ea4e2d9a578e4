-- ===== src/Reverse/Readings.antt =====
-- A history of frames and levels as the readings that reach the debounce.
use rpi_speeduino_dashboard.Common.{
  ℕ, ◌≡◌, refl, ◌∙◌, ap, Bool, not, ◌&&◌, Option, none, some, List, [], ◌∷◌, arith, leb, ◌==◌,
  if◌then◌else◌,
}
use rpi_speeduino_dashboard.Reverse.Gpio.{Line}
use rpi_speeduino_dashboard.Reverse.Detector.{
  ReverseConfig, Source, can, gpio, Detector, set_state, debounce, can_reading, process_can_frame,
  read_gpio, check_gpio,
}

-- What the service's loop hands to the detector.
pub data Input : Type 0 where
  can_frame : (now stamp id : ℕ) → List ℕ → (dlc : ℕ) → Input
  gpio_level : (now stamp : ℕ) → Bool → Input

unfoldable pub step : Input → Detector → Detector
step (can_frame now stamp id payload dlc) d = process_can_frame now stamp id payload dlc d
step (gpio_level now stamp level) d = check_gpio now stamp level d

-- A history is a list with the latest first.
unfoldable pub run : List Input → Detector → Detector
run [] d = d
run (x ∷ xs) d = step x (run xs d)

-- A reading that reaches the debounce.
pub record Reading : Type 0 where
  pub time : ℕ
  pub stamp : ℕ
  pub source : Source
  pub value : Bool

-- The readings of a history, under fixed settings: a frame counts if CAN is on, its identifier is
-- the configured one and its payload has the byte; a level if the line is on and initialised.
unfoldable pub reading : ReverseConfig → Line → Input → Option Reading
reading c l (can_frame now stamp id payload dlc) =
    if c.can_enabled && (id == c.can_id && not (leb dlc c.byte_index))
    then some (record { time = now; stamp = stamp; source = can; value = can_reading c payload })
    else none
reading c l (gpio_level now stamp level) =
    if c.gpio_enabled && l.initialized
    then some (record {
      time = now;
      stamp = stamp;
      source = gpio;
      value = if c.gpio_active_low then not (read_gpio level l) else read_gpio level l;
    })
    else none

abbrev add_reading : Option Reading → List Reading → List Reading
add_reading none os = os
add_reading (some o) os = o ∷ os

unfoldable pub readings : ReverseConfig → Line → List Input → List Reading
readings c l [] = []
readings c l (x ∷ xs) = add_reading (reading c l x) (readings c l xs)

unfoldable pub observe : Reading → Detector → Detector
observe o d = debounce o.time o.stamp o.source o.value d

unfoldable pub observe_all : List Reading → Detector → Detector
observe_all [] d = d
observe_all (o ∷ os) d = observe o (observe_all os d)

abbrev observe_option : Option Reading → Detector → Detector
observe_option none d = d
observe_option (some o) d = observe o d

observe-settings :
    (o : Reading) (d : Detector)
    → ((observe o d).config ≡ d.config)
      × ((observe o d).line ≡ d.line)
      × ((observe o d).has_callback ≡ d.has_callback)
unfolding observe debounce set_state
observe-settings o d = ground arith

pub observe_all-settings :
    (os : List Reading) (d : Detector)
    → ((observe_all os d).config ≡ d.config)
      × ((observe_all os d).line ≡ d.line)
      × ((observe_all os d).has_callback ≡ d.has_callback)
unfolding observe_all
observe_all-settings [] d = (refl, refl, refl)
observe_all-settings (o ∷ os) d =
    let (c, l, h) = observe_all-settings os d in
    let (c', l', h') = observe-settings o (observe_all os d) in (c' ∙ c, l' ∙ l, h' ∙ h)

step-observe : (x : Input) (d : Detector) → step x d ≡ observe_option (reading d.config d.line x) d
unfolding step reading observe process_can_frame check_gpio
step-observe (can_frame now stamp id payload dlc) d = ground arith
step-observe (gpio_level now stamp level) d = ground arith

-- A history acts by its readings alone: every other frame and level leaves the detector as it was.
pub run-readings :
    (xs : List Input) (d : Detector) → run xs d ≡ observe_all (readings d.config d.line xs) d
unfolding run readings observe_all
run-readings [] d = refl
run-readings (x ∷ xs) d =
    let before = observe_all (readings d.config d.line xs) d in
    let (c, l, _) = observe_all-settings (readings d.config d.line xs) d in
    rw (run-readings xs d) (
      step-observe x before
      ∙ (ap (λ (r : Option Reading). observe_option r before) (λ i. reading (c i) (l i) x)
          ∙ split (reading d.config d.line x)))
  where
    split :
        (r : Option Reading)
        → observe_option r (observe_all (readings d.config d.line xs) d)
          ≡ observe_all (add_reading r (readings d.config d.line xs)) d
    split none = refl
    split (some o) = refl
