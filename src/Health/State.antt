-- ===== src/Health/State.antt =====
-- The data of src/common/include/common/system_health.hpp. Times are nanoseconds of the steady clock,
-- timeouts milliseconds.
use rpi_speeduino_dashboard.Common.{
  ℕ, ◌+◌, Bool, true, false, not, ◌&&◌, List, [], ◌∷◌, none, some, String, leb, ◌==◌, if◌then◌else◌,
  get_elem?,
}

pub data SystemMode : Type 0 where
  normal degraded_can degraded_camera degraded_hmi degraded_multiple safe_mode safe_shutdown :
      SystemMode

unfoldable pub system_mode_to_string : SystemMode → String
system_mode_to_string normal = "Normal"
system_mode_to_string degraded_can = "DegradedCAN"
system_mode_to_string degraded_camera = "DegradedCamera"
system_mode_to_string degraded_hmi = "DegradedHMI"
system_mode_to_string degraded_multiple = "DegradedMultiple"
system_mode_to_string safe_mode = "SafeMode"
system_mode_to_string safe_shutdown = "SafeShutdown"

-- The value of the enumerator, by which the modes are ordered.
unfoldable pub severity : SystemMode → ℕ
severity normal = 0
severity degraded_can = 1
severity degraded_camera = 2
severity degraded_hmi = 3
severity degraded_multiple = 4
severity safe_mode = 5
severity safe_shutdown = 6

unfoldable pub same_mode : SystemMode → SystemMode → Bool
unfolding severity
same_mode a b = severity a == severity b

-- `SubsystemId` by its values: CAN, Camera, OpenAuto, GPIO, ZMQ and Config are 0 to 5.
abbrev pub num_subsystems : ℕ
num_subsystems = 6

unfoldable pub subsystem_id_to_string : ℕ → String
subsystem_id_to_string id =
    if id == 0
    then "CAN"
    else if id == 1
    then "Camera"
    else if id == 2
    then "OpenAuto"
    else if id == 3
    then "GPIO"
    else if id == 4
    then "ZMQ"
    else if id == 5
    then "Config"
    else "Unknown"

pub record SubsystemStatus : Type 0 where
  pub id : ℕ
  pub healthy : Bool
  pub last_heartbeat : ℕ
  pub timeout : ℕ
  pub error_count : ℕ
  pub last_error : String

-- The members of `SystemHealth`, and the calls made to the two callbacks, the last one first.
pub record SystemHealth : Type 0 where
  pub current_mode : SystemMode
  pub subsystems : List SubsystemStatus
  pub has_mode_callback : Bool
  pub has_health_callback : Bool
  pub shutdown_requested : Bool
  pub mode_calls : List (SystemMode × SystemMode)
  pub health_calls : List (ℕ × Bool)

unfoldable pub new_status : ℕ → ℕ → SubsystemStatus
new_status now id = record {
  id = id;
  healthy = true;
  last_heartbeat = now;
  timeout = 500;
  error_count = 0;
  last_error = "";
}

unfoldable pub new_health : ℕ → SystemHealth
new_health now = record {
  current_mode = normal;
  subsystems =
      new_status now 0
      ∷ new_status now 1
      ∷ new_status now 2
      ∷ new_status now 3
      ∷ new_status now 4
      ∷ new_status now 5
      ∷ [];
  has_mode_callback = false;
  has_health_callback = false;
  shutdown_requested = false;
  mode_calls = [];
  health_calls = [];
}

unfoldable pub count_unhealthy : List SubsystemStatus → ℕ
count_unhealthy [] = 0
count_unhealthy (s ∷ ss) = (if s.healthy then 0 else 1) + count_unhealthy ss

unfoldable pub all_healthy : List SubsystemStatus → Bool
all_healthy [] = true
all_healthy (s ∷ ss) = s.healthy && all_healthy ss

unfoldable pub healthy_at : ℕ → List SubsystemStatus → Bool
healthy_at id ss = elim (get_elem? ss id) [ none ↦ false | some s ↦ s.healthy ]

-- The mode that `updateSystemMode` determines.
unfoldable pub mode_of : List SubsystemStatus → SystemMode
mode_of ss =
    if count_unhealthy ss == 0
    then normal
    else if leb 3 (count_unhealthy ss)
    then safe_mode
    else if not (healthy_at 0 ss) && not (healthy_at 1 ss)
    then degraded_multiple
    else if not (healthy_at 0 ss)
    then degraded_can
    else if not (healthy_at 1 ss)
    then degraded_camera
    else degraded_hmi
