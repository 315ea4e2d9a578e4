-- ===== src/Health/Methods.antt =====
-- The methods of `SystemHealth` in src/common/src/system_health.cpp.
use rpi_speeduino_dashboard.Common.{
  ℕ, zero, suc, ◌+◌, ◌-◌, ◌/◌, Bool, true, false, ◌&&◌, ◌∷◌, none, some, map, String, ltb, leb,
  if◌then◌else◌, get_elem?, modify, u32,
}
use rpi_speeduino_dashboard.Health.State.{
  SystemMode, normal, safe_shutdown, same_mode, SubsystemStatus, SystemHealth, num_subsystems,
  count_unhealthy, all_healthy, healthy_at, mode_of,
}

-- What the two callbacks and the other threads do to the members while `notifyModeChange` and
-- `notifyHealthChange` have let go of the mutex. An exception of a callback ends there too.
pub record World : Type 0 where
  pub mode_told : SystemMode → SystemMode → SystemHealth → SystemHealth
  pub health_told : ℕ → Bool → SystemHealth → SystemHealth

-- A healthy subsystem whose last heartbeat is longer ago than its timeout.
unfoldable pub is_late : ℕ → SubsystemStatus → Bool
is_late now s = s.healthy && ltb s.timeout ((now - s.last_heartbeat) / 1000000)

unfoldable pub reset_status : ℕ → SubsystemStatus → SubsystemStatus
reset_status now s = record s {
  healthy = true;
  last_heartbeat = now;
  error_count = 0;
  last_error = "";
}

module _ (w : World) where
  unfoldable pub notify_mode_change : SystemMode → SystemMode → SystemHealth → SystemHealth
  notify_mode_change old new h =
      if h.has_mode_callback
      then w.mode_told old new (record h { mode_calls = (old, new) ∷ h.mode_calls })
      else h

  unfoldable pub notify_health_change : ℕ → Bool → SystemHealth → SystemHealth
  notify_health_change id healthy h =
      if h.has_health_callback
      then w.health_told id healthy (record h { health_calls = (id, healthy) ∷ h.health_calls })
      else h

  unfoldable pub update_system_mode : SystemHealth → SystemHealth
  update_system_mode h =
      let new = mode_of h.subsystems in
      if h.shutdown_requested
      then h
      else if same_mode h.current_mode new
      then record h { current_mode = new }
      else notify_mode_change h.current_mode new (record h { current_mode = new })

  -- A subsystem whose health has changed: the callback, then the mode.
  unfoldable pub health_changed : ℕ → Bool → SystemHealth → SystemHealth
  health_changed id healthy h = update_system_mode (notify_health_change id healthy h)

  unfoldable pub report_heartbeat : ℕ → ℕ → SystemHealth → SystemHealth
  report_heartbeat now id h =
      if leb num_subsystems id
      then h
      else (let marked : SystemHealth = record h {
        subsystems =
            modify id (λ s. record s { last_heartbeat = now; healthy = true }) h.subsystems;
      } in
          if healthy_at id h.subsystems then marked else health_changed id true marked)

  unfoldable pub report_error : ℕ → String → Bool → SystemHealth → SystemHealth
  report_error id message is_fatal h =
      if leb num_subsystems id
      then h
      else (let counted : SystemHealth = record h {
        subsystems =
            modify id
              (λ s. record s { error_count = u32 (s.error_count + 1); last_error = message })
              h.subsystems;
      } in
          let marked : SystemHealth = record counted {
            subsystems = modify id (λ s. record s { healthy = false }) counted.subsystems;
          } in
          if is_fatal
          then (if healthy_at id counted.subsystems then health_changed id false marked else marked)
          else counted)

  unfoldable pub report_recovery : ℕ → ℕ → SystemHealth → SystemHealth
  report_recovery now id h =
      if leb num_subsystems id
      then h
      else (let marked : SystemHealth = record h {
        subsystems =
            modify id (λ s. record s { healthy = true; last_heartbeat = now }) h.subsystems;
      } in
          if healthy_at id h.subsystems then marked else health_changed id true marked)

  -- `setSubsystemHealth`, with the health that is set as two cases.
  unfoldable pub set_subsystem_health : ℕ → ℕ → Bool → SystemHealth → SystemHealth
  set_subsystem_health now id true h =
      if leb num_subsystems id
      then h
      else (let marked : SystemHealth = record h {
        subsystems =
            modify id (λ s. record s { healthy = true; last_heartbeat = now }) h.subsystems;
      } in
          if healthy_at id h.subsystems then marked else health_changed id true marked)
  set_subsystem_health now id false h =
      if leb num_subsystems id
      then h
      else (let marked : SystemHealth = record h {
        subsystems = modify id (λ s. record s { healthy = false }) h.subsystems;
      } in
          if healthy_at id h.subsystems then health_changed id false marked else marked)

  -- One round of the loop of `checkTimeouts`, with `anyChanged`.
  unfoldable pub check_one : ℕ → ℕ → Bool × SystemHealth → Bool × SystemHealth
  check_one now i (any, h) = elim (get_elem? h.subsystems i) [
    | none ↦ (any, h)
    | some s ↦
        if is_late now s
        then (
          true,
          notify_health_change s.id false
              (record h { subsystems = modify i (λ s. record s { healthy = false }) h.subsystems }),
        )
        else (any, h)
  ]

  -- The loop from `i` on, with `n` rounds left.
  unfoldable pub check_from : ℕ → ℕ → ℕ → Bool × SystemHealth → Bool × SystemHealth
  check_from now zero i c = c
  check_from now (suc n) i c = check_from now n (suc i) (check_one now i c)

  unfoldable pub check_timeouts : ℕ → SystemHealth → SystemHealth
  check_timeouts now h =
      let (any, checked) = check_from now num_subsystems 0 (false, h) in
      if any then update_system_mode checked else checked

  unfoldable pub request_shutdown : SystemHealth → SystemHealth
  request_shutdown h =
      if h.shutdown_requested
      then h
      else notify_mode_change h.current_mode safe_shutdown
          (record h { shutdown_requested = true; current_mode = safe_shutdown })

  unfoldable pub reset : ℕ → SystemHealth → SystemHealth
  reset now h =
      let cleared : SystemHealth = record h {
        subsystems = map (reset_status now) h.subsystems;
        shutdown_requested = false;
        current_mode = normal;
      } in
      if same_mode h.current_mode normal
      then cleared
      else notify_mode_change h.current_mode normal cleared

unfoldable pub is_subsystem_healthy : ℕ → SystemHealth → Bool
is_subsystem_healthy id h = if leb num_subsystems id then false else healthy_at id h.subsystems

unfoldable pub is_all_healthy : SystemHealth → Bool
is_all_healthy h = all_healthy h.subsystems

unfoldable pub unhealthy_count : SystemHealth → ℕ
unhealthy_count h = count_unhealthy h.subsystems

unfoldable pub set_mode_change_callback : Bool → SystemHealth → SystemHealth
set_mode_change_callback is_set h = record h { has_mode_callback = is_set }

unfoldable pub set_health_change_callback : Bool → SystemHealth → SystemHealth
set_health_change_callback is_set h = record h { has_health_callback = is_set }

unfoldable pub set_subsystem_timeout : ℕ → ℕ → SystemHealth → SystemHealth
set_subsystem_timeout id timeout h =
    if leb num_subsystems id
    then h
    else record h { subsystems = modify id (λ s. record s { timeout = timeout }) h.subsystems }
