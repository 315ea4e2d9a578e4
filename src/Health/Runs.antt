-- ===== src/Health/Runs.antt =====
-- The mode over any sequence of calls, and a requested shutdown.
use rpi_speeduino_dashboard.Common.{
  arith, sym, ℕ, zero, suc, ◌≡◌, refl, Bool, true, false, List, [], ◌∷◌, Option, none, some, String,
  map, if-elim, if◌then◌else◌, get_elem?, modify,
}
use rpi_speeduino_dashboard.Health.State.{
  count_unhealthy, normal, safe_shutdown, same_mode, SubsystemStatus, SystemHealth, mode_of,
  num_subsystems,
}
use rpi_speeduino_dashboard.Health.Methods.{
  World, notify_health_change, update_system_mode, report_heartbeat, report_error, report_recovery,
  set_subsystem_health, set_subsystem_timeout, is_late, check_one, check_from, check_timeouts,
  request_shutdown, reset_status, reset, set_mode_change_callback, set_health_change_callback,
}
use rpi_speeduino_dashboard.Health.Modes.{
  IsConsistent, IsShut, KeepsMode, IsShut-consistent, notify_mode_change-IsConsistent,
  notify_health_change-IsShut, update_system_mode-IsConsistent, report_heartbeat-IsConsistent,
  report_recovery-IsConsistent, report_error-IsConsistent, set_subsystem_health-IsConsistent,
  set_subsystem_timeout-IsConsistent,
}

-- A call of a method, with the time that it reads.
pub data Call : Type 0 where
  heartbeat : ℕ → ℕ → Call
  error : ℕ → String → Bool → Call
  recovery : ℕ → ℕ → Call
  set_health : ℕ → ℕ → Bool → Call
  set_timeout : ℕ → ℕ → Call
  check : ℕ → Call
  shut_down : Call
  start_over : ℕ → Call
  on_mode : Bool → Call
  on_health : Bool → Call

module _ (w : World) where
  unfoldable pub step : Call → SystemHealth → SystemHealth
  step (heartbeat now id) h = report_heartbeat w now id h
  step (error id message is_fatal) h = report_error w id message is_fatal h
  step (recovery now id) h = report_recovery w now id h
  step (set_health now id healthy) h = set_subsystem_health w now id healthy h
  step (set_timeout id timeout) h = set_subsystem_timeout id timeout h
  step (check now) h = check_timeouts w now h
  step shut_down h = request_shutdown w h
  step (start_over now) h = reset w now h
  step (on_mode is_set) h = set_mode_change_callback is_set h
  step (on_health is_set) h = set_health_change_callback is_set h

  unfoldable pub run : List Call → SystemHealth → SystemHealth
  run [] h = h
  run (c ∷ cs) h = run cs (step c h)

-- In the loop of `checkTimeouts` the mode may lag behind once a subsystem has changed.
abbrev IsChecked : Bool × SystemHealth → Type 0
IsChecked (any, h) = IsShut h × (if any then Unit {0} else IsConsistent h)

all_reset-count :
    (now : ℕ) (ss : List SubsystemStatus) → count_unhealthy (map (reset_status now) ss) ≡ 0
unfolding count_unhealthy reset_status
all_reset-count now [] = refl
all_reset-count now (s ∷ ss) = omega (arith, all_reset-count now ss)

all_reset-mode_of :
    (now : ℕ) (ss : List SubsystemStatus) → mode_of (map (reset_status now) ss) ≡ normal
unfolding mode_of
all_reset-mode_of now ss = simp (all_reset-count now ss)

module _ (w : World) (keeps : KeepsMode w) where
  check_one-IsChecked :
      (now i : ℕ) (c : Bool × SystemHealth) → IsChecked c → IsChecked (check_one w now i c)
  unfolding check_one
  check_one-IsChecked now i (any, h) v = one (get_elem? h.subsystems i)
    where
      one :
          (o : Option SubsystemStatus)
          → IsChecked (elim o [
            | none ↦ (any, h)
            | some s ↦
                if is_late now s
                then (
                  true,
                  notify_health_change w s.id false (record h {
                    subsystems = modify i (λ s. record s { healthy = false }) h.subsystems;
                  }),
                )
                else (any, h)
          ])
      one none = v
      one (some s) =
          if-elim IsChecked (is_late now s)
            (λ late. (notify_health_change-IsShut w keeps s.id false _ v.0, tt)) (λ fresh. v)

  check_from-IsChecked :
      (now n i : ℕ) (c : Bool × SystemHealth) → IsChecked c → IsChecked (check_from w now n i c)
  unfolding check_from
  check_from-IsChecked now zero i c v = v
  check_from-IsChecked now (suc n) i c v =
      check_from-IsChecked now n (suc i) (check_one w now i c) (check_one-IsChecked now i c v)

  checked-IsConsistent :
      (c : Bool × SystemHealth)
      → IsChecked c
      → IsConsistent (if c.0 then update_system_mode w c.1 else c.1)
  checked-IsConsistent (true, h) v = update_system_mode-IsConsistent w keeps h v.0
  checked-IsConsistent (false, h) v = v.1

  check_timeouts-IsConsistent :
      (now : ℕ) (h : SystemHealth) → IsConsistent h → IsConsistent (check_timeouts w now h)
  unfolding check_timeouts
  check_timeouts-IsConsistent now h v =
      checked-IsConsistent (check_from w now num_subsystems 0 (false, h))
        (check_from-IsChecked now num_subsystems 0 (false, h) (IsShut-consistent h v, v))

  request_shutdown-IsConsistent :
      (h : SystemHealth) → IsConsistent h → IsConsistent (request_shutdown w h)
  unfolding request_shutdown
  request_shutdown-IsConsistent h v =
      if-elim IsConsistent h.shutdown_requested (λ again. v)
        (λ first. notify_mode_change-IsConsistent w keeps h.current_mode safe_shutdown _ refl)

  reset-IsConsistent : (now : ℕ) (h : SystemHealth) → IsConsistent h → IsConsistent (reset w now h)
  unfolding reset
  reset-IsConsistent now h v =
      let fresh = sym (all_reset-mode_of now h.subsystems) in
      if-elim IsConsistent (same_mode h.current_mode normal) (λ same. fresh)
        (λ other. notify_mode_change-IsConsistent w keeps h.current_mode normal _ fresh)

  step-IsConsistent : (c : Call) (h : SystemHealth) → IsConsistent h → IsConsistent (step w c h)
  unfolding step set_mode_change_callback set_health_change_callback
  step-IsConsistent (heartbeat now id) h v = report_heartbeat-IsConsistent w keeps now id h v
  step-IsConsistent (error id message is_fatal) h v =
      report_error-IsConsistent w keeps id message is_fatal h v
  step-IsConsistent (recovery now id) h v = report_recovery-IsConsistent w keeps now id h v
  step-IsConsistent (set_health now id healthy) h v =
      set_subsystem_health-IsConsistent w keeps now id healthy h v
  step-IsConsistent (set_timeout id timeout) h v =
      set_subsystem_timeout-IsConsistent w keeps id timeout h v
  step-IsConsistent (check now) h v = check_timeouts-IsConsistent now h v
  step-IsConsistent shut_down h v = request_shutdown-IsConsistent h v
  step-IsConsistent (start_over now) h v = reset-IsConsistent now h v
  step-IsConsistent (on_mode is_set) h v = v
  step-IsConsistent (on_health is_set) h v = v

  -- Over any sequence of calls, the mode stays what the members call for: safe shutdown once it is
  -- requested, and else the mode that the health of the subsystems determines. The callbacks and the
  -- other threads may do anything that keeps this, and, in the health callback, that keeps a requested
  -- shutdown visible.
  pub run-IsConsistent :
      (cs : List Call) (h : SystemHealth) → IsConsistent h → IsConsistent (run w cs h)
  unfolding run
  run-IsConsistent [] h v = v
  run-IsConsistent (c ∷ cs) h v = run-IsConsistent cs (step w c h) (step-IsConsistent c h v)
