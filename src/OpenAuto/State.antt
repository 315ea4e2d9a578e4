-- ===== src/OpenAuto/State.antt =====
-- The members of `OpenAutoController`, its signals and what it asks of others,
-- src/hmi_launcher/include/hmi/openauto_controller.hpp.
use rpi_speeduino_dashboard.Common.{ℕ, Bool, true, false, List, [], String}
use rpi_speeduino_dashboard.Common.Int.{ℤ, pos}

pub data Signal : Type 0 where
  running_changed : Signal
  connected_changed : Signal
  error_changed : Signal
  connection_type_changed : Signal
  phone_name_changed : Signal
  auto_start_changed : Signal
  wireless_enabled_changed : Signal
  started : Signal
  stopped : Signal
  crashed : String → Signal
  phone_connected : String → Signal
  phone_disconnected : Signal
  show_notification : String → String → Signal

-- What a single-shot timer does when it fires.
pub data Action : Type 0 where
  start_again : Action
  confirm_stable : Action
  look_for_devices : Action

pub record Timer : Type 0 where
  pub due : ℕ
  pub action : Action

-- The calls of QProcess.
pub data Command : Type 0 where
  terminate : Command
  kill : Command
  set_environment : List (String × String) → Command
  execute : String → Command

-- `signals`, `timers` and `commands` have the last one first; of `timers`, those that have not fired
-- yet. Times are in milliseconds.
pub record Controller : Type 0 where
  pub executable_path : String
  pub fullscreen : Bool
  pub auto_start : Bool
  pub wireless_enabled : Bool
  pub video_width : ℤ
  pub video_height : ℤ
  pub video_fps : ℤ
  pub running : Bool
  pub connected : Bool
  pub error_message : String
  pub connection_type : String
  pub phone_name : String
  pub last_detected_device : String
  pub crash_restart_count : ℕ
  pub current_restart_delay_ms : ℕ
  pub last_successful_start : ℕ
  pub signals : List Signal
  pub timers : List Timer
  pub commands : List Command

abbrev pub max_crash_restarts : ℕ
max_crash_restarts = 3

abbrev pub initial_restart_delay_ms : ℕ
initial_restart_delay_ms = 2000

abbrev pub max_restart_delay_ms : ℕ
max_restart_delay_ms = 30000

unfoldable pub new_controller : Controller
new_controller = record {
  executable_path = "/usr/local/bin/autoapp";
  fullscreen = true;
  auto_start = true;
  wireless_enabled = false;
  video_width = pos 800;
  video_height = pos 480;
  video_fps = pos 60;
  running = false;
  connected = false;
  error_message = "";
  connection_type = "";
  phone_name = "";
  last_detected_device = "";
  crash_restart_count = 0;
  current_restart_delay_ms = initial_restart_delay_ms;
  last_successful_start = 0;
  signals = [];
  timers = [];
  commands = [];
}

-- The texts of Qt: the decimal digits of a number, and what it does without regard to case.
pub record Texts : Type 0 where
  pub number : ℤ → String
  pub contains : String → String → Bool
  pub starts_with : String → String → Bool
  pub same : String → String → Bool
  pub left : ℕ → String → String
