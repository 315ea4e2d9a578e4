-- ===== src/OpenAuto/Steps.antt =====
-- The steps of `OpenAutoController`: calls, signals of its process, and timers, in any order that
-- the times of the timers allow.
use rpi_speeduino_dashboard.Common.{
  ℕ, zero, suc, ◌≤◌, ◌≡◌, Bool, List, [], ◌∷◌, All, Option, some, String, get_elem?,
}
use rpi_speeduino_dashboard.Common.Int.{ℤ}
use rpi_speeduino_dashboard.OpenAuto.State.{
  Timer, Action, start_again, confirm_stable, look_for_devices, Controller, Texts,
}
use rpi_speeduino_dashboard.OpenAuto.Slots.{
  set_executable_path, set_fullscreen, set_auto_start, set_wireless_enabled, set_resolution,
  on_stable,
}
use rpi_speeduino_dashboard.OpenAuto.Output.{Event, on_event}
use rpi_speeduino_dashboard.OpenAuto.Control.{Answers, start, stop, restart, toggle}
use rpi_speeduino_dashboard.OpenAuto.Devices.{Device, check_usb_devices, on_usb_device_changed}

-- `usb_check` is also what the periodic timer of the USB monitoring calls.
pub data Call : Type 0 where
  to_start : Call
  to_stop : Call
  to_restart : Call
  to_toggle : Call
  usb_check : Option (List Device) → Call
  usb_changed : Call
  executable : String → Call
  full : Bool → Call
  automatic : Bool → Call
  wireless : Bool → Call
  resolution : ℤ → ℤ → ℤ → Call

abbrev pub remove {ℓ} : {A : Type ℓ} → ℕ → List A → List A
remove i [] = []
remove zero (x ∷ xs) = xs
remove (suc i) (x ∷ xs) = x ∷ remove i xs

module _ (q : Texts) where
  unfoldable pub call : Answers → ℕ → Call → Controller → Controller
  call a now to_start c = (start q a now c).0
  call a now to_stop c = stop q a now c
  call a now to_restart c = restart q a now c
  call a now to_toggle c = toggle q a now c
  call a now (usb_check bus) c = check_usb_devices q a bus now c
  call a now usb_changed c = on_usb_device_changed now c
  call a now (executable path) c = set_executable_path path c
  call a now (full is_full) c = set_fullscreen is_full c
  call a now (automatic is_automatic) c = set_auto_start is_automatic c
  call a now (wireless is_wireless) c = set_wireless_enabled is_wireless c
  call a now (resolution width height fps) c = set_resolution width height fps c

  unfoldable pub perform : Answers → Option (List Device) → ℕ → Action → Controller → Controller
  perform a bus now start_again c = (start q a now c).0
  perform a bus now confirm_stable c = on_stable c
  perform a bus now look_for_devices c = check_usb_devices q a bus now c

-- Time passes until a timer is due at most; a timer that is due fires once.
pub data Step (q : Texts) : ℕ × Controller → ℕ × Controller → Type 0 where
  waits :
      {t u : ℕ} {c : Controller} → t ≤ u → All (λ tm. u ≤ tm.due) c.timers → Step q (t, c) (u, c)
  signals : {t : ℕ} {c : Controller} (e : Event) → Step q (t, c) (t, on_event q t e c)
  calls : {t : ℕ} {c : Controller} (a : Answers) (k : Call) → Step q (t, c) (t, call q a t k c)
  fires :
      {t : ℕ} {c : Controller} (i : ℕ) (tm : Timer) (a : Answers) (bus : Option (List Device))
      → get_elem? c.timers i ≡ some tm
      → tm.due ≤ t
      → Step q (t, c) (t, perform q a bus t tm.action (record c { timers = remove i c.timers }))

pub data Reach (q : Texts) : ℕ × Controller → ℕ × Controller → Type 0 where
  here : {x : ℕ × Controller} → Reach q x x
  next : {x y z : ℕ × Controller} → Reach q x y → Step q y z → Reach q x z
