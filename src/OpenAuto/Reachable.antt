-- ===== src/OpenAuto/Reachable.antt =====
-- What holds of the restart counter and delay whatever happens to the controller.
use rpi_speeduino_dashboard.Common.{
  arith, ℕ, ◌≡◌, refl, sym, ap, subst, if-elim, Bool, true, false, not, ◌||◌, List, [], ◌∷◌, Option,
  none, some, String, str_eq, if◌then◌else◌,
}
use rpi_speeduino_dashboard.OpenAuto.State.{
  terminate, new_controller, Action, start_again, confirm_stable, look_for_devices, Controller,
  Texts,
}
use rpi_speeduino_dashboard.OpenAuto.Slots.{
  same_flag, set_auto_start, set_wireless_enabled, set_executable_path, set_fullscreen,
  set_resolution, clear_error, on_stable, reset_crashes,
}
use rpi_speeduino_dashboard.OpenAuto.Output.{Event, on_event, deliver}
use rpi_speeduino_dashboard.OpenAuto.Control.{
  start_elsewhere, Answers, clear_process, launch, start, stop, restart, toggle, first_existing,
  alternative_paths, environment_of,
}
use rpi_speeduino_dashboard.OpenAuto.Devices.{
  get_device_name, note_device, Device, first_android, detect_android_auto_device,
  check_usb_devices, on_usb_device_changed,
}
use rpi_speeduino_dashboard.OpenAuto.Steps.{
  remove, Call, to_start, to_stop, to_restart, to_toggle, usb_check, usb_changed, executable, full,
  automatic, wireless, resolution, call, perform, Step, waits, signals, calls, fires, Reach, here,
  next,
}
use rpi_speeduino_dashboard.OpenAuto.Supervisor.{
  Supervisor, view, IsBackedOff, IsBackedOff-same, Keeps, set_error-Keeps, clear_error-Keeps,
  set_connected-Keeps,
}
use rpi_speeduino_dashboard.OpenAuto.Following.{on_event-view}
use rpi_speeduino_dashboard.OpenAuto.Machine.{
  settle, Moves, none_yet, further, passes, hears, wakes, restarts, looks, switches,
}

-- The controller follows the machine from a time and a state on: what the machine describes of it can
-- be reached there, and its counter and its delay fit.
record Follows (x : ℕ × Supervisor) (t : ℕ) (c : Controller) : Type 0 where
  backed : IsBackedOff c
  moves : Moves x (t, view c)

on_stable-IsBackedOff : (c : Controller) → IsBackedOff c → IsBackedOff (on_stable c)
unfolding on_stable reset_crashes
on_stable-IsBackedOff c b =
    if-elim IsBackedOff c.running (λ e. record { count = omega arith; delay = refl }) (λ e. b)

on_stable-view : (c : Controller) → view (on_stable c) ≡ settle confirm_stable (view c)
unfolding on_stable reset_crashes
on_stable-view c = if-view c.running
  where
    if-view :
        (b : Bool)
        → view (if b then reset_crashes c else c)
          ≡ (if b then record (view c) { attempts = 0 } else view c)
    if-view true = refl
    if-view false = refl

module _ {x : ℕ × Supervisor} {t : ℕ} where
  kept :
      {c d : Controller}
      → view d ≡ view c
      → d.current_restart_delay_ms ≡ c.current_restart_delay_ms
      → Follows x t c
      → Follows x t d
  kept {c} {d} v e b = record {
    backed = IsBackedOff-same c d (ap (λ s. s.attempts) v) e b.backed;
    moves = subst (λ s. Moves x (t, s)) (sym v) b.moves;
  }

  copied : (c d : Controller) → Keeps c d → Follows x t c → Follows x t d
  copied c d k b = kept k.view_eq k.delay_eq b

  hear : (q : Texts) (e : Event) (c : Controller) → Follows x t c → Follows x t (on_event q t e c)
  hear q e c b =
      let (same, fits) = on_event-view q t e c b.backed in
      record {
        backed = fits;
        moves = subst (λ s. Moves x (t, s)) (sym same) (further b.moves (hears e));
      }

  if-Follows :
      (b : Bool) (c d : Controller)
      → Follows x t c
      → Follows x t d
      → Follows x t (if b then c else d)
  if-Follows true c d h g = h
  if-Follows false c d h g = g

  if-first-Follows :
      (b : Bool) (u v : Controller × Bool)
      → Follows x t u.0
      → Follows x t v.0
      → Follows x t (if b then u else v).0
  if-first-Follows true u v h g = h
  if-first-Follows false u v h g = g

  note_device-Follows :
      (d : Option Device) (c : Controller) → Follows x t c → Follows x t (note_device d c).0
  unfolding note_device
  note_device-Follows none c b = kept refl refl b
  note_device-Follows (some d) c b =
      if-Follows (str_eq (get_device_name d) c.phone_name) _ _ (kept refl refl b) (kept refl refl b)

  set_auto_start-Follows :
      (v : Bool) (c : Controller) → Follows x t c → Follows x t (set_auto_start v c)
  unfolding set_auto_start
  set_auto_start-Follows v c b = if-Follows (same_flag c.auto_start v) c _ b (record {
    backed = record { count = b.backed.count; delay = b.backed.delay };
    moves = further b.moves (switches v);
  })

  set_wireless_enabled-Follows :
      (v : Bool) (c : Controller) → Follows x t c → Follows x t (set_wireless_enabled v c)
  unfolding set_wireless_enabled
  set_wireless_enabled-Follows v c b =
      if-Follows (same_flag c.wireless_enabled v) c _ b (kept refl refl b)

  module _ (q : Texts) where
    deliver-Follows :
        (es : List Event) (c : Controller) → Follows x t c → Follows x t (deliver q t es c)
    unfolding deliver
    deliver-Follows [] c b = b
    deliver-Follows (e ∷ es) c b = deliver-Follows es _ (hear q e c b)

    clear_process-Follows :
        (a : Answers) (c : Controller) → Follows x t c → Follows x t (clear_process q a t c)
    unfolding clear_process
    clear_process-Follows a c b =
        if-Follows a.is_idle c _ b (deliver-Follows a.on_kill _ (kept refl refl b))

    launch-Follows :
        (a : Answers) (path : String) (env : List (String × String)) (c : Controller)
        → Follows x t c
        → Follows x t (launch q a t path env c).0
    unfolding launch
    launch-Follows a path env c b =
        let cleared = clear_process-Follows a c b in
        let waited = deliver-Follows a.on_start _ (kept refl refl cleared) in
        if-first-Follows (not a.has_process) _ _ (copied c _ (set_error-Keeps _ c) b)
          (if-first-Follows a.starts_in_time _ _ waited (copied _ _ (set_error-Keeps _ _) waited))

    start_elsewhere-Follows :
        (a : Answers) (env : List (String × String)) (c : Controller) (found : Option String)
        → Follows x t c
        → Follows x t (start_elsewhere q a t env c found).0
    unfolding start_elsewhere
    start_elsewhere-Follows a env c none b = copied c _ (set_error-Keeps _ c) b
    start_elsewhere-Follows a env c (some path) b = launch-Follows a path env _ (kept refl refl b)

    start-Follows : (a : Answers) (c : Controller) → Follows x t c → Follows x t (start q a t c).0
    unfolding start
    start-Follows a c b =
        let cleared = copied c _ (clear_error-Keeps c) b in
        if-first-Follows c.running (c, true) _ b
          (if-first-Follows (a.exists c.executable_path) _ _
            (launch-Follows a c.executable_path (environment_of q a c) (clear_error c) cleared)
            (start_elsewhere-Follows a (environment_of q a c) (clear_error c)
              (first_existing a.exists (alternative_paths a.home)) cleared))

    stop-Follows : (a : Answers) (c : Controller) → Follows x t c → Follows x t (stop q a t c)
    unfolding stop
    stop-Follows a c b =
        let asked =
          deliver-Follows a.on_terminate (record c { commands = terminate ∷ c.commands })
            (kept refl refl b) in
        let killed = deliver-Follows a.on_kill _ (kept refl refl asked) in
        if-Follows (not c.running || not a.has_process) c _ b
          (copied _ _ (set_connected-Keeps false _) (if-Follows a.ends_in_time _ _ asked killed))

    detect-Follows :
        (bus : Option (List Device)) (c : Controller)
        → Follows x t c
        → Follows x t (detect_android_auto_device q bus c).0
    unfolding detect_android_auto_device
    detect-Follows none c b = b
    detect-Follows (some ds) c b = note_device-Follows (first_android q ds) c b

    check_usb_devices-Follows :
        (a : Answers) (bus : Option (List Device)) (c : Controller)
        → Follows x t c
        → Follows x t (check_usb_devices q a bus t c)
    unfolding check_usb_devices
    check_usb_devices-Follows a bus c b =
        let seen = detect-Follows bus c b in if-Follows _ _ _ (start-Follows a _ seen) seen

    call-Follows :
        (a : Answers) (k : Call) (c : Controller) → Follows x t c → Follows x t (call q a t k c)
    unfolding call restart toggle set_executable_path set_fullscreen set_resolution
        on_usb_device_changed
    call-Follows a to_start c b = start-Follows a c b
    call-Follows a to_stop c b = stop-Follows a c b
    call-Follows a to_restart c b =
        let stopped = stop-Follows a c b in
        record {
          backed = record { count = stopped.backed.count; delay = stopped.backed.delay };
          moves = further stopped.moves restarts;
        }
    call-Follows a to_toggle c b =
        if-Follows c.running _ _ (stop-Follows a c b) (start-Follows a c b)
    call-Follows a (usb_check bus) c b = check_usb_devices-Follows a bus c b
    call-Follows a usb_changed c b = record {
      backed = record { count = b.backed.count; delay = b.backed.delay };
      moves = further b.moves looks;
    }
    call-Follows a (executable path) c b = kept refl refl b
    call-Follows a (full is_full) c b = kept refl refl b
    call-Follows a (automatic is_automatic) c b = set_auto_start-Follows is_automatic c b
    call-Follows a (wireless is_wireless) c b = set_wireless_enabled-Follows is_wireless c b
    call-Follows a (resolution width height fps) c b = kept refl refl b

    perform-Follows :
        (a : Answers) (bus : Option (List Device)) (k : Action) (c : Controller)
        → IsBackedOff c
        → Moves x (t, settle k (view c))
        → Follows x t (perform q a bus t k c)
    unfolding perform
    perform-Follows a bus start_again c b m = start-Follows a c (record { backed = b; moves = m })
    perform-Follows a bus confirm_stable c b m = record {
      backed = on_stable-IsBackedOff c b;
      moves = subst (λ s. Moves x (t, s)) (sym (on_stable-view c)) m;
    }
    perform-Follows a bus look_for_devices c b m =
        check_usb_devices-Follows a bus c (record { backed = b; moves = m })

module _ (q : Texts) where
  step-Follows :
      {x : ℕ × Supervisor} {y z : ℕ × Controller}
      → Step q y z
      → Follows x y.0 y.1
      → Follows x z.0 z.1
  step-Follows (waits h d) b = record { backed = b.backed; moves = further b.moves (passes h d) }
  step-Follows (signals {t} {c} e) b = hear q e c b
  step-Follows (calls {t} {c} a k) b = call-Follows q a k c b
  step-Follows (fires {t} {c} i tm a bus g d) b =
      perform-Follows q a bus tm.action (record c { timers = remove i c.timers })
        (record { count = b.backed.count; delay = b.backed.delay })
        (further b.moves (wakes i tm g d))

  along-Follows :
      {x : ℕ × Supervisor} {y z : ℕ × Controller}
      → Reach q y z
      → Follows x y.0 y.1
      → Follows x z.0 z.1
  along-Follows here b = b
  along-Follows (next r s) b = step-Follows s (along-Follows r b)

  pub along-IsBackedOff : {x y : ℕ × Controller} → Reach q x y → IsBackedOff x.1 → IsBackedOff y.1
  along-IsBackedOff r b = (along-Follows r (record { backed = b; moves = none_yet })).backed

-- In every state that a new controller can reach, by calls, signals of the process and timers in
-- any order, at most three crashes are counted, and the delay of the next restart is two seconds
-- doubled for each of them, so at most 16 seconds: the limit of 30 seconds plays no part.
pub Reach-IsBackedOff :
    (q : Texts) {t u : ℕ} {c : Controller} → Reach q (t, new_controller) (u, c) → IsBackedOff c
unfolding new_controller
Reach-IsBackedOff q r = along-IsBackedOff q r (record { count = omega arith; delay = refl })
