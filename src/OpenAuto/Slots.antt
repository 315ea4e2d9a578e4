-- ===== src/OpenAuto/Slots.antt =====
-- The slots of `OpenAutoController` that follow its process, and the setters of its state,
-- src/hmi_launcher/src/openauto_controller.cpp.
use rpi_speeduino_dashboard.Common.{
  ℕ, ◌+◌, ◌*◌, min, Bool, true, false, not, ◌∷◌, String, ◌<>◌, str_eq, ltb, if◌then◌else◌,
}
use rpi_speeduino_dashboard.Common.Int.{ℤ, pos}
use rpi_speeduino_dashboard.OpenAuto.State.{
  Signal, running_changed, connected_changed, error_changed, connection_type_changed,
  phone_name_changed, auto_start_changed, wireless_enabled_changed, started, stopped, crashed,
  phone_connected, phone_disconnected, show_notification, start_again, confirm_stable, Action,
  Controller, Texts, max_crash_restarts, initial_restart_delay_ms, max_restart_delay_ms,
}

abbrev pub emit : Signal → Controller → Controller
emit s c = record c { signals = s ∷ c.signals }

-- `QTimer::singleShot`.
abbrev pub single_shot : ℕ → Action → Controller → Controller
single_shot due action c = record c { timers = record { due = due; action = action } ∷ c.timers }

abbrev pub process_stability_check_ms : ℕ
process_stability_check_ms = 5000

abbrev pub usb_debounce_delay_ms : ℕ
usb_debounce_delay_ms = 500

abbrev pub same_flag : Bool → Bool → Bool
same_flag true b = b
same_flag false b = not b

unfoldable pub set_executable_path : String → Controller → Controller
set_executable_path path c = record c { executable_path = path }

unfoldable pub set_fullscreen : Bool → Controller → Controller
set_fullscreen fullscreen c = record c { fullscreen = fullscreen }

unfoldable pub set_auto_start : Bool → Controller → Controller
set_auto_start auto_start c =
    if same_flag c.auto_start auto_start
    then c
    else emit auto_start_changed (record c { auto_start = auto_start })

unfoldable pub set_wireless_enabled : Bool → Controller → Controller
set_wireless_enabled enabled c =
    if same_flag c.wireless_enabled enabled
    then c
    else emit wireless_enabled_changed (record c { wireless_enabled = enabled })

unfoldable pub set_resolution : ℤ → ℤ → ℤ → Controller → Controller
set_resolution width height fps c = record c {
  video_width = width;
  video_height = height;
  video_fps = fps;
}

unfoldable pub set_error : String → Controller → Controller
set_error message c =
    if str_eq c.error_message message
    then c
    else emit error_changed (record c { error_message = message })

unfoldable pub clear_error : Controller → Controller
clear_error c =
    if str_eq c.error_message "" then c else emit error_changed (record c { error_message = "" })

unfoldable pub set_connected : Bool → Controller → Controller
set_connected connected c =
    if same_flag c.connected connected
    then c
    else if connected
    then emit (phone_connected c.phone_name)
        (emit connected_changed (record c { connected = connected }))
    else emit phone_disconnected (
        emit connection_type_changed (
          emit phone_name_changed (
            emit connected_changed
              (record c { connected = connected; phone_name = ""; connection_type = "" }))))

unfoldable pub on_process_started : ℕ → Controller → Controller
on_process_started now c = single_shot (now + process_stability_check_ms) confirm_stable (
    emit (show_notification "OpenAuto" "Android Auto is ready. Connect your phone.") (
      emit started
        (emit running_changed (record c { running = true; last_successful_start = now }))))

-- The crash counter and the delay as they are at the start.
unfoldable pub reset_crashes : Controller → Controller
reset_crashes c = record c {
  crash_restart_count = 0;
  current_restart_delay_ms = initial_restart_delay_ms;
}

-- The timer that `onProcessStarted` sets.
unfoldable pub on_stable : Controller → Controller
on_stable c = if c.running then reset_crashes c else c

-- The process is gone.
unfoldable pub end_process : Controller → Controller
end_process c = set_connected false (emit running_changed (record c { running = false }))

module _ (q : Texts) where
  abbrev pub loop_message : ℕ → String
  loop_message count =
      "OpenAuto crash loop detected ("
      <> (q.number (pos count)
          <> " crashes). Automatic restart disabled. Manual intervention required.")

  -- What a crash does once it is counted.
  unfoldable pub after_crash : ℕ → Controller → Controller
  after_crash now c =
      if ltb max_crash_restarts c.crash_restart_count
      then reset_crashes (
          emit (show_notification "OpenAuto Error" "Crash loop detected - restart disabled")
            (set_error (loop_message c.crash_restart_count) c))
      else (let scheduled : Controller =
            single_shot (now + c.current_restart_delay_ms) start_again c in
          record scheduled {
            current_restart_delay_ms = min (c.current_restart_delay_ms * 2) max_restart_delay_ms;
          })

  unfoldable pub tell_crash : ℤ → Controller → Controller
  tell_crash exit_code c =
      let message = "OpenAuto crashed with exit code " <> q.number exit_code in
      emit (show_notification "OpenAuto Error" message)
        (emit (crashed message) (set_error message c))

  unfoldable pub on_process_finished : ℕ → ℤ → Bool → Controller → Controller
  on_process_finished now exit_code is_crash c =
      let told = tell_crash exit_code (end_process c) in
      if is_crash
      then (if c.auto_start
          then after_crash now (record told { crash_restart_count = told.crash_restart_count + 1 })
          else told)
      else emit stopped (reset_crashes (end_process c))
