-- ===== src/OpenAuto/Examples.antt =====
-- The controller of OpenAuto at concrete runs.
use rpi_speeduino_dashboard.Common.{arith, ◌+◌, ◌*◌, ◌≡◌, refl, true, some, str_eq}
use rpi_speeduino_dashboard.Common.Int.{pos, negsuc}
use rpi_speeduino_dashboard.OpenAuto.State.{Controller, new_controller, Texts}
use rpi_speeduino_dashboard.OpenAuto.Slots.{
  set_error, set_connected, on_process_started, on_process_finished, after_crash, tell_crash,
  end_process,
}
use rpi_speeduino_dashboard.OpenAuto.Output.{has_started, has_finished, on_event}
use rpi_speeduino_dashboard.OpenAuto.Control.{send_touch, q_bound}
use rpi_speeduino_dashboard.OpenAuto.Steps.{remove, signals, Reach, here, next}
use rpi_speeduino_dashboard.OpenAuto.Supervisor.{view, IsBackedOff}
use rpi_speeduino_dashboard.OpenAuto.Reachable.{Reach-IsBackedOff}
use rpi_speeduino_dashboard.OpenAuto.Loop.{
  looping, execute_count, looping-crash_rounds, crash_rounds, counted_after,
}

-- Texts that are compared with regard to case, and one exit code.
abbrev plain : Texts
plain = record {
  number = λ n. "139";
  contains = λ text part. str_eq text part;
  starts_with = λ text part. str_eq text part;
  same = λ a b. str_eq a b;
  left = λ n text. text;
}

-- A process that crashes at once.
abbrev run :
    Reach plain
      (0, new_controller)
      (
        0,
        on_event plain 0
            (has_finished (pos 139) true)
            (on_event plain 0 has_started new_controller),
      )
run = next (next here (signals has_started)) (signals (has_finished (pos 139) true))

Reach-IsBackedOff_example :
    IsBackedOff
      (on_event plain 0 (has_finished (pos 139) true) (on_event plain 0 has_started new_controller))
Reach-IsBackedOff_example = Reach-IsBackedOff plain run

-- Started, crashed after two seconds, and restarted, as the timer asks, after two more.
abbrev crashed_once : Controller
crashed_once =
    on_event plain 2000 (has_finished (pos 139) true) (on_event plain 0 has_started new_controller)

abbrev restarted : Controller
restarted =
    on_event plain 4000 has_started (record crashed_once { timers = remove 0 crashed_once.timers })

restarted-looping : view restarted ≡ looping 4000 1
unfolding on_event on_process_started on_process_finished tell_crash end_process after_crash
    set_error set_connected new_controller
restarted-looping = refl

restarted-IsBackedOff : IsBackedOff restarted
unfolding on_event on_process_started on_process_finished tell_crash end_process after_crash
    set_error set_connected new_controller
restarted-IsBackedOff = record { count = omega arith; delay = refl }

looping-crash_rounds_example :
    Reach plain (4000, restarted) (4000 + 4000 * 5, crash_rounds plain 5 4000 restarted)
    × (view (crash_rounds plain 5 4000 restarted) ≡ looping (4000 + 4000 * 5) (counted_after 5 1))
    × (execute_count (crash_rounds plain 5 4000 restarted).commands
        ≡ 5 + execute_count restarted.commands)
looping-crash_rounds_example =
    looping-crash_rounds plain 5 4000 1 restarted restarted-IsBackedOff restarted-looping

-- A touch outside the picture is taken to its edge, which lies one past the last pixel.
touched :
    send_touch
      (pos 900)
      (negsuc 4)
      (pos 0)
      (record new_controller { running = true; connected = true })
    ≡ some (pos 800, pos 0, pos 0)
unfolding send_touch q_bound new_controller
touched = refl
