-- ===== src/Cluster/Examples.antt =====
-- The cluster simulator at concrete rounds.
use rpi_speeduino_dashboard.Common.{
  arith, ℕ, ◌+◌, ◌*◌, ◌≤◌, ◌≡◌, refl, Bool, true, false, List, [], ◌∷◌, length,
}
use rpi_speeduino_dashboard.Common.Int.{pos, negsuc, scale_ℤ, ◌≤ℤ◌}
use rpi_speeduino_dashboard.Bus.{CanFrame}
use rpi_speeduino_dashboard.Cluster.State.{
  Settings, Cluster, new_settings, new_cluster, set_gear, set_steering_angle, clamp,
  set_all_wheel_speeds,
}
use rpi_speeduino_dashboard.Cluster.Frames.{send_sas, send_abs, abs1_id, abs2_id}
use rpi_speeduino_dashboard.Cluster.Ticks.{Round, transmit_loop, start, stop}
use rpi_speeduino_dashboard.Cluster.Encoding.{
  signed_word, word_at, send_sas-angle, send_sas-rate, IsRounded, send_abs-words,
}
use rpi_speeduino_dashboard.Cluster.Counts.{IsSound}
use rpi_speeduino_dashboard.Cluster.Rates.{
  count, due, KeepsModules, sum, all_elapsed, transmit_loop-rates,
}

-- An interface that takes every second frame.
abbrev every_second : List CanFrame → CanFrame → Bool
every_second [] f = true
every_second (g ∷ []) f = false
every_second (g ∷ h ∷ hs) f = every_second hs f

-- All modules on, fourth gear, 400 degrees to the left, 123.4 km/h.
abbrev all_on : Settings
all_on =
    record (set_gear 4 (set_steering_angle (negsuc 399) (set_all_wheel_speeds 1234 new_settings))) {
      sas_enabled = true;
      abs_enabled = true;
    }

abbrev driving : Cluster
driving = record new_cluster { settings = all_on }

abbrev shift_up : Settings → Settings
shift_up s = set_gear 5 s

abbrev shifting : Round
shifting = record { elapsed = 3000000; set = shift_up }

shifting-KeepsModules : KeepsModules shifting
unfolding set_gear
shifting-KeepsModules = record {
  asc = λ s. refl;
  egs = λ s. refl;
  sas = λ s. refl;
  abs = λ s. refl;
}

abbrev rounds : List Round
rounds = shifting ∷ shifting ∷ []

driving-IsSound : IsSound driving
unfolding new_cluster
driving-IsSound = record { whole = tt; counted = refl }

started_once : (start (start driving).0).1 ≡ false
unfolding start new_cluster
started_once = refl

stopped : (stop (start driving).0).running ≡ false
unfolding stop
stopped = refl

transmit_loop-rates_example :
    ((id : ℕ)
      → count id (transmit_loop every_second rounds driving).1.handed
          + due driving.settings driving.tick_counter id
        ≡ count id driving.handed + due driving.settings (driving.tick_counter + length rounds) id)
    × (20000000 * length rounds
        ≤ all_elapsed rounds + sum (transmit_loop every_second rounds driving).0)
unfolding new_cluster
transmit_loop-rates_example =
    transmit_loop-rates every_second rounds driving
      (shifting-KeepsModules, (shifting-KeepsModules, tt)) (omega arith)

-- At 50 ticks a second, 25 frames for each axle, where 20 are documented.
wheel_rate : due all_on 50 abs1_id ≡ 25
unfolding set_gear set_steering_angle set_all_wheel_speeds new_settings
wheel_rate = refl

send_sas-angle_example :
    (f : CanFrame) × ((send_sas every_second
        (record driving { settings = set_steering_angle (pos 900) driving.settings })).handed
      ≡ f ∷ driving.handed)
    × (signed_word (word_at 0 f) ≡ scale_ℤ 10 (clamp (negsuc 719) (pos 720) (pos 900)))
    × (negsuc 7199 ≤ℤ signed_word (word_at 0 f))
    × (signed_word (word_at 0 f) ≤ℤ pos 7200)
send_sas-angle_example = send_sas-angle every_second (pos 900) driving

send_sas-rate_example :
    (f : CanFrame) × ((send_sas every_second driving).handed ≡ f ∷ driving.handed)
    × (signed_word (word_at 2 f) ≡ scale_ℤ 10 driving.settings.steering_rate)
unfolding new_settings set_gear set_steering_angle set_all_wheel_speeds
send_sas-rate_example = send_sas-rate every_second driving (omega arith) (omega arith)

send_abs-words_example :
    (front : CanFrame) × (rear : CanFrame) × ((send_abs every_second driving).handed
      ≡ rear ∷ front ∷ driving.handed)
    × (front.id ≡ abs1_id)
    × (rear.id ≡ abs2_id)
    × IsRounded driving.settings.wheel_speed_fl (word_at 0 front)
    × IsRounded driving.settings.wheel_speed_fr (word_at 2 front)
    × IsRounded driving.settings.wheel_speed_rl (word_at 0 rear)
    × IsRounded driving.settings.wheel_speed_rr (word_at 2 rear)
unfolding set_gear set_steering_angle set_all_wheel_speeds
send_abs-words_example =
    send_abs-words every_second driving (omega arith) (omega arith) (omega arith) (omega arith)
