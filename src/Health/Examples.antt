-- ===== src/Health/Examples.antt =====
-- The system's health at concrete calls.
use rpi_speeduino_dashboard.Common.{
  length, get_elem?, ◌-◌, ◌/◌, ◌≡◌, refl, true, false, List, [], ◌∷◌, some, map, arith, leb,
}
use rpi_speeduino_dashboard.Health.State.{
  safe_mode, safe_shutdown, same_mode, severity, SystemHealth, new_health, new_status, mode_of,
  count_unhealthy, healthy_at,
}
use rpi_speeduino_dashboard.Health.Methods.{
  set_subsystem_health, World, notify_mode_change, notify_health_change, update_system_mode,
  health_changed, report_heartbeat, report_error, is_late, check_one, check_from, check_timeouts,
  request_shutdown, is_subsystem_healthy,
}
use rpi_speeduino_dashboard.Health.Modes.{IsConsistent, KeepsMode}
use rpi_speeduino_dashboard.Health.Runs.{
  Call, heartbeat, error, check, set_health, step, run, run-IsConsistent,
}
use rpi_speeduino_dashboard.Health.Shutdown.{KeepsShutdown, run-shutdown}
use rpi_speeduino_dashboard.Health.Timeouts.{
  expire, IsQuiet, check_timeouts-subsystems, check_timeouts-report_heartbeat,
}

-- Callbacks that leave the system alone.
abbrev idle : World
idle = record { mode_told = λ old new h. h; health_told = λ id b h. h }

idle-KeepsMode : KeepsMode idle
idle-KeepsMode = record { consistent = λ old new h v. v; shut = λ id b h v. v }

idle-KeepsShutdown : KeepsShutdown idle
idle-KeepsShutdown = record { requested = λ id b h r. r }

idle-IsQuiet : IsQuiet idle
idle-IsQuiet = record { mode = λ old new h. refl; health = λ id b h. refl }

abbrev fresh : SystemHealth
fresh = new_health 0

fresh-IsConsistent : IsConsistent fresh
unfolding new_health new_status mode_of count_unhealthy
fresh-IsConsistent = refl

-- CAN fails, and then nothing but CAN and the camera reports for 600 milliseconds.
abbrev calls : List Call
calls =
    error 0 "bus off" true ∷ heartbeat 600000000 0 ∷ heartbeat 600000000 1 ∷ check 600000000 ∷ []

modes : (run idle calls fresh).current_mode ≡ safe_mode
unfolding run step report_error report_heartbeat check_timeouts check_from check_one is_late
    health_changed notify_health_change update_system_mode notify_mode_change same_mode severity
    new_health new_status mode_of count_unhealthy healthy_at
modes = refl

-- The failure of OpenAuto alone counts as more severe than that of OpenAuto and CAN together.
lone_failure : severity (run idle (set_health 1 2 false ∷ []) fresh).current_mode ≡ 3
unfolding severity run step set_subsystem_health health_changed notify_health_change
    update_system_mode notify_mode_change same_mode new_health new_status mode_of count_unhealthy
    healthy_at
lone_failure = refl

both_failures :
    severity (run idle (set_health 1 2 false ∷ set_health 1 0 false ∷ []) fresh).current_mode ≡ 1
unfolding severity run step set_subsystem_health health_changed notify_health_change
    update_system_mode notify_mode_change same_mode new_health new_status mode_of count_unhealthy
    healthy_at
both_failures = refl

run-IsConsistent_example : IsConsistent (run idle calls fresh)
run-IsConsistent_example = run-IsConsistent idle idle-KeepsMode calls fresh fresh-IsConsistent

abbrev stopping : SystemHealth
stopping = request_shutdown idle fresh

stopping-IsConsistent : IsConsistent stopping
unfolding request_shutdown notify_mode_change new_health
stopping-IsConsistent = refl

stopping_now : stopping.shutdown_requested ≡ true
unfolding request_shutdown notify_mode_change new_health
stopping_now = refl

run-shutdown_example : (run idle calls stopping).current_mode ≡ safe_shutdown
run-shutdown_example =
    run-shutdown idle idle-KeepsShutdown idle-KeepsMode calls stopping stopping-IsConsistent
      stopping_now (refl, (refl, (refl, (refl, tt))))

fresh_six : length fresh.subsystems ≡ 6
unfolding new_health
fresh_six = refl

fresh_camera : get_elem? fresh.subsystems 1 ≡ some (new_status 0 1)
unfolding new_health
fresh_camera = refl

check_timeouts-subsystems_example :
    (check_timeouts idle 600000000 fresh).subsystems ≡ map (expire 600000000) fresh.subsystems
check_timeouts-subsystems_example =
    check_timeouts-subsystems idle idle-IsQuiet 600000000 fresh fresh_six

check_timeouts-report_heartbeat_example :
    is_subsystem_healthy 1 (check_timeouts idle 600000000 (report_heartbeat idle 200000000 1 fresh))
    ≡ leb ((600000000 - 200000000) / 1000000) (new_status 0 1).timeout
check_timeouts-report_heartbeat_example =
    check_timeouts-report_heartbeat idle idle-IsQuiet 200000000 600000000 1 fresh (new_status 0 1)
      fresh_six (omega arith) fresh_camera
