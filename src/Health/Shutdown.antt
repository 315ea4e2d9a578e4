-- ===== src/Health/Shutdown.antt =====
-- That a requested shutdown lasts.
use rpi_speeduino_dashboard.Common.{
  leb, ℕ, zero, suc, ◌≡◌, ap, ◌∙◌, Bool, true, false, List, [], ◌∷◌, All, Option, none, some,
  if-elim, if◌then◌else◌, get_elem?, modify,
}
use rpi_speeduino_dashboard.Health.State.{
  safe_shutdown, SubsystemStatus, SystemHealth, mode_of, num_subsystems, healthy_at,
}
use rpi_speeduino_dashboard.Health.Methods.{
  World, notify_health_change, update_system_mode, health_changed, report_heartbeat, report_error,
  report_recovery, set_subsystem_health, set_subsystem_timeout, is_late, check_one, check_from,
  check_timeouts, request_shutdown, set_mode_change_callback, set_health_change_callback,
}
use rpi_speeduino_dashboard.Health.Modes.{IsConsistent, KeepsMode}
use rpi_speeduino_dashboard.Health.Runs.{
  Call, heartbeat, error, recovery, set_health, set_timeout, check, shut_down, start_over, on_mode,
  on_health, step, run, run-IsConsistent,
}

abbrev pub is_reset : Call → Bool
is_reset (start_over now) = true
is_reset _ = false

-- What is asked of the health callback for a shutdown to last.
pub record KeepsShutdown (w : World) : Type 0 where
  pub requested :
      (id : ℕ) (b : Bool) (h : SystemHealth)
      → h.shutdown_requested ≡ true
      → (w.health_told id b h).shutdown_requested ≡ true

abbrev IsRequested : SystemHealth → Type 0
IsRequested h = h.shutdown_requested ≡ true

module _ (w : World) (lasts : KeepsShutdown w) where
  notify_health_change-IsRequested :
      (id : ℕ) (b : Bool) (h : SystemHealth)
      → IsRequested h
      → IsRequested (notify_health_change w id b h)
  unfolding notify_health_change
  notify_health_change-IsRequested id b h r =
      if-elim IsRequested h.has_health_callback (λ set. lasts.requested id b _ r) (λ unset. r)

  update_system_mode-IsRequested :
      (h : SystemHealth) → IsRequested h → IsRequested (update_system_mode w h)
  unfolding update_system_mode
  update_system_mode-IsRequested h r =
      if-elim IsRequested h.shutdown_requested (λ on. r) (λ off. cc)

  health_changed-IsRequested :
      (id : ℕ) (b : Bool) (h : SystemHealth) → IsRequested h → IsRequested (health_changed w id b h)
  unfolding health_changed
  health_changed-IsRequested id b h r =
      update_system_mode-IsRequested _ (notify_health_change-IsRequested id b h r)

  check_one-IsRequested :
      (now i : ℕ) (c : Bool × SystemHealth) → IsRequested c.1 → IsRequested (check_one w now i c).1
  unfolding check_one
  check_one-IsRequested now i (any, h) r = one (get_elem? h.subsystems i)
    where
      one :
          (o : Option SubsystemStatus)
          → IsRequested
              (elim o as (λ o. Bool × SystemHealth) [
                | none ↦ (any, h)
                | some s ↦
                    if is_late now s
                    then (
                      true,
                      notify_health_change w s.id false (record h {
                        subsystems = modify i (λ s. record s { healthy = false }) h.subsystems;
                      }),
                    )
                    else (any, h)
              ]).1
      one none = r
      one (some s) =
          if-elim {A = Bool × SystemHealth} (λ c. IsRequested c.1) (is_late now s)
            (λ late. notify_health_change-IsRequested s.id false _ r) (λ fresh. r)

  check_from-IsRequested :
      (now n i : ℕ) (c : Bool × SystemHealth)
      → IsRequested c.1
      → IsRequested (check_from w now n i c).1
  unfolding check_from
  check_from-IsRequested now zero i c r = r
  check_from-IsRequested now (suc n) i c r =
      check_from-IsRequested now n (suc i) (check_one w now i c) (check_one-IsRequested now i c r)

  step-IsRequested :
      (c : Call) (h : SystemHealth) → is_reset c ≡ false → IsRequested h → IsRequested (step w c h)
  unfolding step set_mode_change_callback set_health_change_callback report_heartbeat
      report_recovery report_error set_subsystem_health set_subsystem_timeout check_timeouts
      request_shutdown
  step-IsRequested (heartbeat now id) h k r =
      if-elim IsRequested (leb num_subsystems id) (λ unknown. r)
        (λ known.
          if-elim IsRequested (healthy_at id h.subsystems) (λ was. r)
            (λ was. health_changed-IsRequested id true _ r))
  step-IsRequested (error id message is_fatal) h k r =
      if-elim IsRequested (leb num_subsystems id) (λ unknown. r)
        (λ known.
          if-elim IsRequested is_fatal
            (λ fatal.
              if-elim IsRequested (healthy_at id _) (λ was. health_changed-IsRequested id false _ r)
                (λ was. r))
            (λ mild. r))
  step-IsRequested (recovery now id) h k r =
      if-elim IsRequested (leb num_subsystems id) (λ unknown. r)
        (λ known.
          if-elim IsRequested (healthy_at id h.subsystems) (λ was. r)
            (λ was. health_changed-IsRequested id true _ r))
  step-IsRequested (set_health now id true) h k r =
      if-elim IsRequested (leb num_subsystems id) (λ unknown. r)
        (λ known.
          if-elim IsRequested (healthy_at id h.subsystems) (λ was. r)
            (λ was. health_changed-IsRequested id true _ r))
  step-IsRequested (set_health now id false) h k r =
      if-elim IsRequested (leb num_subsystems id) (λ unknown. r)
        (λ known.
          if-elim IsRequested (healthy_at id h.subsystems)
            (λ was. health_changed-IsRequested id false _ r) (λ was. r))
  step-IsRequested (set_timeout id timeout) h k r =
      if-elim IsRequested (leb num_subsystems id) (λ unknown. r) (λ known. r)
  step-IsRequested (check now) h k r =
      let checked = check_from-IsRequested now num_subsystems 0 (false, h) r in
      if-elim IsRequested (check_from w now num_subsystems 0 (false, h)).0
        (λ changed. update_system_mode-IsRequested _ checked) (λ quiet. checked)
  step-IsRequested shut_down h k r =
      if-elim IsRequested h.shutdown_requested (λ again. r) (λ first. cc)
  step-IsRequested (start_over now) h k r = cc
  step-IsRequested (on_mode is_set) h k r = r
  step-IsRequested (on_health is_set) h k r = r

  run-IsRequested :
      (cs : List Call) (h : SystemHealth)
      → All (λ c. is_reset c ≡ false) cs
      → IsRequested h
      → IsRequested (run w cs h)
  unfolding run
  run-IsRequested [] h k r = r
  run-IsRequested (c ∷ cs) h k r = run-IsRequested cs (step w c h) k.1 (step-IsRequested c h k.0 r)

  -- Once a shutdown is requested, the mode is safe shutdown after any further calls, whatever becomes
  -- of the subsystems, as long as none of the calls is `reset` and the callbacks keep the request and
  -- the rule for the mode.
  pub run-shutdown :
      (keeps : KeepsMode w) (cs : List Call) (h : SystemHealth)
      → IsConsistent h
      → h.shutdown_requested ≡ true
      → All (λ c. is_reset c ≡ false) cs
      → (run w cs h).current_mode ≡ safe_shutdown
  run-shutdown keeps cs h v r k =
      run-IsConsistent w keeps cs h v
      ∙ ap (λ b. if b then safe_shutdown else mode_of (run w cs h).subsystems)
          (run-IsRequested cs h k r)
