-- ===== src/OpenAuto/Output.antt =====
-- The slots for errors and for the output of the process, src/hmi_launcher/src/openauto_controller.cpp.
use rpi_speeduino_dashboard.Common.{
  ℕ, Bool, true, false, ◌||◌, List, [], ◌∷◌, String, ◌<>◌, str_eq, if◌then◌else◌,
}
use rpi_speeduino_dashboard.Common.Int.{ℤ}
use rpi_speeduino_dashboard.OpenAuto.State.{
  Controller, Texts, connection_type_changed, show_notification,
}
use rpi_speeduino_dashboard.OpenAuto.Slots.{
  emit, set_error, set_connected, on_process_started, on_process_finished,
}

-- QProcess::ProcessError.
pub data ProcessError : Type 0 where
  failed_to_start : ProcessError
  process_crashed : ProcessError
  timed_out : ProcessError
  write_error : ProcessError
  read_error : ProcessError
  other_error : ℤ → ProcessError

-- The signals of QProcess.
pub data Event : Type 0 where
  has_started : Event
  has_finished : ℤ → Bool → Event
  has_failed : ProcessError → Event
  has_written : String → Event

module _ (q : Texts) where
  unfoldable pub error_text : ProcessError → String
  error_text failed_to_start = "Failed to start OpenAuto - check executable path and permissions"
  error_text process_crashed = "OpenAuto process crashed unexpectedly"
  error_text timed_out = "OpenAuto process operation timed out"
  error_text write_error = "Write error communicating with OpenAuto"
  error_text read_error = "Read error communicating with OpenAuto"
  error_text (other_error code) = "Unknown OpenAuto error (" <> (q.number code <> ")")

  unfoldable pub on_process_error : ProcessError → Controller → Controller
  on_process_error error c = set_error (error_text error) c

  unfoldable pub says_connected : String → Bool
  says_connected output =
      q.contains output "Phone connected"
      || (q.contains output "AndroidAuto started" || q.contains output "Projection started")

  unfoldable pub says_disconnected : String → Bool
  says_disconnected output =
      q.contains output "Phone disconnected"
      || (q.contains output "AndroidAuto stopped" || q.contains output "Projection stopped")

  -- The output is trimmed already.
  unfoldable pub on_ready_read_stdout : String → Controller → Controller
  on_ready_read_stdout output c =
      if str_eq output ""
      then c
      else if says_connected output
      then emit (show_notification "Android Auto" "Phone connected successfully!")
          (emit connection_type_changed (record (set_connected true c) { connection_type = "USB" }))
      else if says_disconnected output
      then set_connected false c
      else if q.contains output "Wireless connection"
      then emit connection_type_changed (record c { connection_type = "Wireless" })
      else c

  unfoldable pub on_event : ℕ → Event → Controller → Controller
  on_event now has_started c = on_process_started now c
  on_event now (has_finished exit_code is_crash) c = on_process_finished q now exit_code is_crash c
  on_event now (has_failed error) c = on_process_error error c
  on_event now (has_written output) c = on_ready_read_stdout output c

  unfoldable pub deliver : ℕ → List Event → Controller → Controller
  deliver now [] c = c
  deliver now (e ∷ es) c = deliver now es (on_event now e c)
