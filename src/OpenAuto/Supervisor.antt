-- ===== src/OpenAuto/Supervisor.antt =====
-- What `OpenAutoController` promises about restarts after crashes, as a smaller machine.
use rpi_speeduino_dashboard.Common.{
  arith, ℕ, zero, suc, ◌+◌, ◌*◌, ◌^◌, ◌≤◌, ◌<◌, ◌≡◌, refl, sym, ap, ◌∙◌, min, Bool, true, false,
  List, ◌∷◌, String, str_eq, if◌then◌else◌, if-elim, ltb,
}
use rpi_speeduino_dashboard.OpenAuto.State.{Timer, start_again, confirm_stable, Controller}
use rpi_speeduino_dashboard.OpenAuto.Slots.{same_flag, set_error, clear_error, set_connected}
use rpi_speeduino_dashboard.OpenAuto.Output.{
  Event, has_started, has_finished, has_failed, has_written,
}

-- `attempts` restarts were scheduled since the process was last seen stable, stopped or given up.
pub record Supervisor : Type 0 where
  pub running : Bool
  pub automatic : Bool
  pub attempts : ℕ
  pub timers : List Timer

-- The first crash is followed by a restart after two seconds, the second after four, the third
-- after eight; the fourth by none.
unfoldable pub crash : ℕ → Supervisor → Supervisor
crash now s =
    if ltb s.attempts 3
    then record s {
      attempts = s.attempts + 1;
      timers = record { due = now + 2000 * 2 ^ s.attempts; action = start_again } ∷ s.timers;
    }
    else record s { attempts = 0 }

unfoldable pub supervise : ℕ → Event → Supervisor → Supervisor
supervise now has_started s = record s {
  running = true;
  timers = record { due = now + 5000; action = confirm_stable } ∷ s.timers;
}
supervise now (has_finished exit_code is_crash) s =
    let ended : Supervisor = record s { running = false } in
    if is_crash
    then (if s.automatic then crash now ended else ended)
    else record ended { attempts = 0 }
supervise now (has_failed error) s = s
supervise now (has_written output) s = s

-- The part of a controller that the machine describes.
abbrev pub view : Controller → Supervisor
view c = record {
  running = c.running;
  automatic = c.auto_start;
  attempts = c.crash_restart_count;
  timers = c.timers;
}

-- The delay is that of the next restart, and no more than three are counted.
pub record IsBackedOff (c : Controller) : Type 0 where
  pub count : c.crash_restart_count ≤ 3
  pub delay : c.current_restart_delay_ms ≡ 2000 * 2 ^ c.crash_restart_count

-- A step that leaves the restarts alone.
pub record Keeps (c c' : Controller) : Type 0 where
  pub view_eq : view c' ≡ view c
  pub delay_eq : c'.current_restart_delay_ms ≡ c.current_restart_delay_ms
  pub commands_eq : c'.commands ≡ c.commands

pub Keeps-same : (c : Controller) → Keeps c c
Keeps-same c = record { view_eq = refl; delay_eq = refl; commands_eq = refl }

pub set_error-Keeps : (message : String) (c : Controller) → Keeps c (set_error message c)
unfolding set_error
set_error-Keeps message c =
    if-elim (Keeps c) (str_eq c.error_message message) (λ e. Keeps-same c)
      (λ e. record { view_eq = refl; delay_eq = refl; commands_eq = refl })

pub clear_error-Keeps : (c : Controller) → Keeps c (clear_error c)
unfolding clear_error
clear_error-Keeps c =
    if-elim (Keeps c) (str_eq c.error_message "") (λ e. Keeps-same c)
      (λ e. record { view_eq = refl; delay_eq = refl; commands_eq = refl })

pub set_connected-Keeps : (b : Bool) (c : Controller) → Keeps c (set_connected b c)
unfolding set_connected
set_connected-Keeps true c =
    if-elim (Keeps c) (same_flag c.connected true) (λ e. Keeps-same c)
      (λ e. record { view_eq = refl; delay_eq = refl; commands_eq = refl })
set_connected-Keeps false c =
    if-elim (Keeps c) (same_flag c.connected false) (λ e. Keeps-same c)
      (λ e. record { view_eq = refl; delay_eq = refl; commands_eq = refl })

-- Below three restarts the limit of the delay is not reached.
pub doubled : (n : ℕ) → n < 3 → min (2000 * 2 ^ n * 2) 30000 ≡ 2000 * 2 ^ (n + 1)
doubled zero h = refl
doubled (suc zero) h = refl
doubled (suc (suc zero)) h = refl
doubled (suc (suc (suc n))) h = absurd (omega arith)

pub crash-again :
    (now : ℕ) (s : Supervisor)
    → s.attempts < 3
    → crash now s ≡ record s {
      attempts = s.attempts + 1;
      timers = record { due = now + 2000 * 2 ^ s.attempts; action = start_again } ∷ s.timers;
    }
unfolding crash
crash-again now s h = let below : ltb s.attempts 3 ≡ true = ground arith in rw (below) refl

pub crash-given_up :
    (now : ℕ) (s : Supervisor) → s.attempts ≡ 3 → crash now s ≡ record s { attempts = 0 }
unfolding crash
crash-given_up now s h = let reached : ltb s.attempts 3 ≡ false = ground arith in rw (reached) refl

pub both-if :
    (b : Bool) (c d : Controller) (s t : Supervisor)
    → (view c ≡ s) × IsBackedOff c
    → (view d ≡ t) × IsBackedOff d
    → (view (if b then c else d) ≡ (if b then s else t)) × IsBackedOff (if b then c else d)
both-if true c d s t h g = h
both-if false c d s t h g = g

pub IsBackedOff-same :
    (c t : Controller)
    → t.crash_restart_count ≡ c.crash_restart_count
    → t.current_restart_delay_ms ≡ c.current_restart_delay_ms
    → IsBackedOff c
    → IsBackedOff t
IsBackedOff-same c t same d b = record {
  count = omega (arith, same, b.count);
  delay = d ∙ b.delay ∙ ap (λ n. 2000 * 2 ^ n) (sym same);
}

pub followed : (c t : Controller) → Keeps c t → IsBackedOff c → (view t ≡ view c) × IsBackedOff t
followed c t k b = (k.view_eq, IsBackedOff-same c t (ap (λ s. s.attempts) k.view_eq) k.delay_eq b)
