-- ===== src/Reverse/Detector.antt =====
-- The state and the methods of `ReverseDetector`. Times are nanoseconds of the steady clock.
use Prim.Native.Nat.{bit_and}
use rpi_speeduino_dashboard.Common.{
  ℕ, ◌-◌, ◌/◌, Bool, true, false, not, ◌&&◌, ◌||◌, List, ◌∷◌, String, str_eq, get_or, leb, ◌==◌,
  if◌then◌else◌, u32,
}
use rpi_speeduino_dashboard.Reverse.Gpio.{Answers, Line, init_gpio, shutdown_line}

pub record ReverseConfig : Type 0 where
  pub detection_mode : String
  pub can_enabled : Bool
  pub can_id : ℕ
  pub byte_index : ℕ
  pub bit_mask : ℕ
  pub expected_value : ℕ
  pub gpio_enabled : Bool
  pub gpio_chip : String
  pub gpio_line : ℕ
  pub gpio_active_low : Bool
  pub debounce_ms : ℕ

pub data Source : Type 0 where
  can gpio : Source

-- `calls` are the calls of the callback, the latest first.
pub record Detector : Type 0 where
  pub config : ReverseConfig
  pub engaged : Bool
  pub last_change_timestamp : ℕ
  pub source : Source
  pub last_transition : ℕ
  pub pending_state : Bool
  pub line : Line
  pub has_callback : Bool
  pub calls : List (Bool × Source)

unfoldable pub same_bool : Bool → Bool → Bool
same_bool true b = b
same_bool false b = not b

-- Which sources a configuration turns on.
unfoldable pub effective_sources : ReverseConfig → Bool × Bool
effective_sources c =
    if str_eq c.detection_mode "gpio"
    then (false, true)
    else if str_eq c.detection_mode "can" || str_eq c.detection_mode "speeduino_can"
    then (true, false)
    else (c.can_enabled, c.gpio_enabled)

-- `init` at a time, with the answers of libgpiod. It always succeeds.
unfoldable pub init : ℕ → Answers → ReverseConfig → Detector → Detector
init now a c d =
    let (can_on, gpio_on) = effective_sources c in
    record d {
      config = record c { can_enabled = can_on; gpio_enabled = gpio_on };
      line = if gpio_on then (init_gpio a d.line).1 else d.line;
      last_transition = now;
    }

unfoldable pub shutdown : Detector → Detector
shutdown d = record d { line = (shutdown_line d.line).0 }

unfoldable pub set_callback : Bool → Detector → Detector
set_callback is_set d = record d { has_callback = is_set }

-- `setState`; `stamp` is the time that it reads.
unfoldable pub set_state : ℕ → Bool → Source → Detector → Detector
set_state stamp engaged source d = record d {
  engaged = engaged;
  source = source;
  last_change_timestamp = u32 (stamp / 1000000);
  calls =
      if not (same_bool engaged d.engaged) && d.has_callback
      then (engaged, source) ∷ d.calls
      else d.calls;
}

-- The debounce that both methods end with: a reading at the time `now`.
unfoldable pub debounce : ℕ → ℕ → Source → Bool → Detector → Detector
debounce now stamp source reading d =
    if not (same_bool reading d.pending_state)
    then record d { pending_state = reading; last_transition = now }
    else (if leb d.config.debounce_ms ((now - d.last_transition) / 1000000)
          && not (same_bool d.pending_state d.engaged)
        then set_state stamp d.pending_state source d
        else d)

-- The caller passes at least `dlc` bytes, so that the read is in range.
unfoldable pub can_reading : ReverseConfig → List ℕ → Bool
can_reading c payload = bit_and (get_or payload c.byte_index 0) c.bit_mask == c.expected_value

unfoldable pub process_can_frame : ℕ → ℕ → ℕ → List ℕ → ℕ → Detector → Detector
process_can_frame now stamp id payload dlc d =
    if not d.config.can_enabled
    then d
    else if not (id == d.config.can_id)
    then d
    else if leb dlc d.config.byte_index
    then d
    else debounce now stamp can (can_reading d.config payload) d

-- `readGpio`: whether libgpiod reports the line active.
unfoldable pub read_gpio : Bool → Line → Bool
read_gpio level l = if l.has_request then level else false

unfoldable pub check_gpio : ℕ → ℕ → Bool → Detector → Detector
check_gpio now stamp level d =
    if not d.config.gpio_enabled || not d.line.initialized
    then d
    else (let state = read_gpio level d.line in
        debounce now stamp gpio (if d.config.gpio_active_low then not state else state) d)
