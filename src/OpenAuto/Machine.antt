-- ===== src/OpenAuto/Machine.antt =====
-- The machine that a controller follows as its calls, its process and its timers go on.
use rpi_speeduino_dashboard.Common.{
  ℕ, ◌+◌, ◌≤◌, ◌≡◌, Bool, ◌∷◌, All, some, if◌then◌else◌, get_elem?,
}
use rpi_speeduino_dashboard.OpenAuto.State.{
  Timer, Action, start_again, confirm_stable, look_for_devices,
}
use rpi_speeduino_dashboard.OpenAuto.Output.{Event}
use rpi_speeduino_dashboard.OpenAuto.Steps.{remove}
use rpi_speeduino_dashboard.OpenAuto.Supervisor.{Supervisor, supervise}

-- A process that still runs when the timer of a start fires is stable: no crash counts any longer.
abbrev pub settle : Action → Supervisor → Supervisor
settle start_again s = s
settle confirm_stable s = if s.running then record s { attempts = 0 } else s
settle look_for_devices s = s

abbrev pub delayed : ℕ → Action → Supervisor → Supervisor
delayed due action s = record s { timers = record { due = due; action = action } ∷ s.timers }

-- Time passes until a timer is due at most; the process signals; a timer fires, once; a restart is
-- or a search for devices is asked for, half a second ahead; and automatic starts are switched on or
-- off.
pub data Move : ℕ × Supervisor → ℕ × Supervisor → Type 0 where
  passes : {t u : ℕ} {s : Supervisor} → t ≤ u → All (λ tm. u ≤ tm.due) s.timers → Move (t, s) (u, s)
  hears : {t : ℕ} {s : Supervisor} (e : Event) → Move (t, s) (t, supervise t e s)
  wakes :
      {t : ℕ} {s : Supervisor} (i : ℕ) (tm : Timer)
      → get_elem? s.timers i ≡ some tm
      → tm.due ≤ t
      → Move (t, s) (t, settle tm.action (record s { timers = remove i s.timers }))
  restarts : {t : ℕ} {s : Supervisor} → Move (t, s) (t, delayed (t + 500) start_again s)
  looks : {t : ℕ} {s : Supervisor} → Move (t, s) (t, delayed (t + 500) look_for_devices s)
  switches : {t : ℕ} {s : Supervisor} (b : Bool) → Move (t, s) (t, record s { automatic = b })

pub data Moves : ℕ × Supervisor → ℕ × Supervisor → Type 0 where
  none_yet : {x : ℕ × Supervisor} → Moves x x
  further : {x y z : ℕ × Supervisor} → Moves x y → Move y z → Moves x z
