-- ===== src/Obd/Request.antt =====
-- The handler's state and the frames that it sends: `buildRequest` and the flow control.
use rpi_speeduino_dashboard.Common.{ℕ, Bool, true, List, [], ◌∷◌, ◌==◌, if◌then◌else◌}
use rpi_speeduino_dashboard.Bus.{CanFrame, make_frame}

-- The counters are `uint32_t`.
pub record Obd : Type 0 where
  pub timeout_ms : ℕ
  pub retry_count : ℕ
  pub use_broadcast : Bool
  pub request_count : ℕ
  pub error_count : ℕ
  pub timeout_count : ℕ

unfoldable pub new_obd : Obd
new_obd = record {
  timeout_ms = 100;
  retry_count = 3;
  use_broadcast = true;
  request_count = 0;
  error_count = 0;
  timeout_count = 0;
}

unfoldable pub set_timeout : ℕ → Obd → Obd
set_timeout ms o = record o { timeout_ms = ms }

unfoldable pub set_retry_count : ℕ → Obd → Obd
set_retry_count count o = record o { retry_count = count }

unfoldable pub set_broadcast : Bool → Obd → Obd
set_broadcast broadcast o = record o { use_broadcast = broadcast }

abbrev pub request_broadcast : ℕ
request_broadcast = 0x7df

abbrev pub request_ecu : ℕ
request_ecu = 0x7e0

abbrev pub response_ecu : ℕ
response_ecu = 0x7e8

unfoldable pub target : Obd → ℕ
target o = if o.use_broadcast then request_broadcast else request_ecu

unfoldable pub request_bytes : ℕ → ℕ → ℕ → List ℕ
request_bytes mode pid1 pid2 =
    if pid2 == 0
    then (if pid1 == 0
        then 1 ∷ mode ∷ 0 ∷ 0 ∷ 0 ∷ 0 ∷ 0 ∷ 0 ∷ []
        else 2 ∷ mode ∷ pid1 ∷ 0 ∷ 0 ∷ 0 ∷ 0 ∷ 0 ∷ [])
    else 3 ∷ mode ∷ pid1 ∷ pid2 ∷ 0 ∷ 0 ∷ 0 ∷ 0 ∷ []

-- A PID that is not given is 0.
unfoldable pub build_request : Obd → ℕ → ℕ → ℕ → CanFrame
build_request o mode pid1 pid2 = make_frame (target o) 8 (request_bytes mode pid1 pid2)

unfoldable pub flow_control : Obd → CanFrame
flow_control o = make_frame (target o) 8 (0x30 ∷ 0 ∷ 0 ∷ 0 ∷ 0 ∷ 0 ∷ 0 ∷ 0 ∷ [])
