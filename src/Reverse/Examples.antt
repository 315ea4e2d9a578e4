-- ===== src/Reverse/Examples.antt =====
-- The reverse detector at concrete histories.
use rpi_speeduino_dashboard.Common.{ℕ, ◌≡◌, ◌≢◌, refl, true, false, List, [], ◌∷◌, ◌++◌, arith}
use rpi_speeduino_dashboard.Reverse.Gpio.{
  Answers, Line, chip, init_gpio, shutdown_line, acquired, released, shutdown_line-init_gpio,
}
use rpi_speeduino_dashboard.Reverse.Detector.{
  ReverseConfig, can, gpio, Detector, same_bool, set_state, debounce,
}
use rpi_speeduino_dashboard.Reverse.Readings.{Input, can_frame, run, Reading, observe, observe_all}
use rpi_speeduino_dashboard.Reverse.Debounce.{IsSteady, observe-IsSteady}
use rpi_speeduino_dashboard.Reverse.Settling.{observe-engaged, observe_all-contradicted}
use rpi_speeduino_dashboard.Reverse.Calls.{IsInformed, run-IsInformed}

abbrev free_line : Line
free_line = record { has_chip = false; has_request = false; initialized = false }

abbrev granted : Answers
granted = record {
  chip_open = true;
  settings_new = true;
  line_config_new = true;
  add_settings = true;
  request_config_new = true;
  request_lines = true;
}

-- The defaults of `ReverseConfig`, with CAN alone.
abbrev settings : ReverseConfig
settings = record {
  detection_mode = "can";
  can_enabled = true;
  can_id = 0x370;
  byte_index = 3;
  bit_mask = 0x80;
  expected_value = 0x80;
  gpio_enabled = false;
  gpio_chip = "gpiochip0";
  gpio_line = 17;
  gpio_active_low = false;
  debounce_ms = 50;
}

abbrev idle : Detector
idle = record {
  config = settings;
  engaged = false;
  last_change_timestamp = 0;
  source = can;
  last_transition = 0;
  pending_state = false;
  line = free_line;
  has_callback = true;
  calls = [];
}

abbrev reads : ℕ → Reading
reads t = record { time = t; stamp = t; source = can; value = true }

-- Reverse is engaged at 61 ms, after a first reading at 10 ms.
engaged_late : (observe_all (reads 61000000 ∷ reads 10000000 ∷ []) idle).engaged ≡ true
unfolding observe_all observe debounce set_state same_bool
engaged_late = refl

not_engaged_early : (observe_all (reads 59000000 ∷ reads 10000000 ∷ []) idle).engaged ≡ false
unfolding observe_all observe debounce set_state same_bool
not_engaged_early = refl

changes :
    (observe (reads 61000000) (observe_all (reads 10000000 ∷ []) idle)).engaged
    ≢ (observe_all (reads 10000000 ∷ []) idle).engaged
unfolding observe_all observe debounce set_state same_bool
changes e = cc

observe-IsSteady_example :
    ((observe (reads 61000000) (observe_all (reads 10000000 ∷ []) idle)).engaged ≡ true)
    × IsSteady 61000000 50 true (reads 10000000 ∷ [])
observe-IsSteady_example =
    observe-IsSteady (reads 61000000) (reads 10000000 ∷ []) idle (omega arith) changes

observe-engaged_example :
    let first = observe (reads 10000000) idle in
    (observe (reads 60000000) (observe_all (reads 30000000 ∷ []) first)).engaged ≡ true
observe-engaged_example =
    observe-engaged (reads 60000000) (reads 10000000) (reads 30000000 ∷ []) idle (omega arith)
      (refl, (refl, tt)) (omega arith)

abbrev disagreeing : List Reading
disagreeing =
    record { time = 300000000; stamp = 0; source = gpio; value = false }
    ∷ record { time = 200000000; stamp = 0; source = can; value = true }
    ∷ []

observe_all-contradicted_example :
    ((observe_all disagreeing idle).engaged ≡ false) × ((observe_all disagreeing idle).calls ≡ [])
observe_all-contradicted_example =
    observe_all-contradicted disagreeing idle ((λ e. cc), ((λ e. cc), tt))

abbrev frames : List Input
frames =
    can_frame 20000000 20000000 0x371 (0 ∷ 0 ∷ 0 ∷ 0x80 ∷ []) 4
    ∷ can_frame 10000000 10000000 0x370 (0 ∷ 0 ∷ 0 ∷ 0x80 ∷ []) 4
    ∷ []

idle-IsInformed : IsInformed false idle
idle-IsInformed = record { is_set = refl; told = refl }

run-IsInformed_example : IsInformed false (run frames idle)
run-IsInformed_example = run-IsInformed false frames idle idle-IsInformed

shutdown_line-init_gpio_example :
    let (done, held, calls) = init_gpio granted free_line in
    let (freed, more) = shutdown_line held in
    (acquired chip (calls ++ more) ≡ released chip (calls ++ more))
    × (done ≡ held.initialized)
    × (held.has_chip ≡ done)
    × (held.has_request ≡ done)
shutdown_line-init_gpio_example = shutdown_line-init_gpio granted free_line chip refl refl refl
