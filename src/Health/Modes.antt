-- ===== src/Health/Modes.antt =====
-- That the mode always follows from the health of the subsystems and from a requested shutdown.
use rpi_speeduino_dashboard.Common.{
  if-elim, get_or, ◌+◌, u32, ℕ, zero, suc, ◌≡◌, refl, sym, ap, ◌∙◌, Bool, true, false, not, ◌||◌,
  List, [], ◌∷◌, String, arith, leb, if◌then◌else◌, modify,
}
use rpi_speeduino_dashboard.Health.State.{
  SystemMode, safe_shutdown, severity, same_mode, SubsystemStatus, SystemHealth, num_subsystems,
  count_unhealthy, healthy_at, mode_of,
}
use rpi_speeduino_dashboard.Health.Methods.{
  World, notify_mode_change, notify_health_change, update_system_mode, health_changed,
  report_heartbeat, report_error, report_recovery, set_subsystem_health, set_subsystem_timeout,
}

-- The mode that the members call for.
abbrev pub expected_mode : SystemHealth → SystemMode
expected_mode h = if h.shutdown_requested then safe_shutdown else mode_of h.subsystems

abbrev pub IsConsistent : SystemHealth → Type 0
IsConsistent h = h.current_mode ≡ expected_mode h

-- What holds even while the health has changed and the mode has not: a requested shutdown shows.
abbrev pub IsShut : SystemHealth → Type 0
IsShut h = (not h.shutdown_requested || same_mode h.current_mode safe_shutdown) ≡ true

pub same_mode-eq : (a b : SystemMode) → same_mode a b ≡ true → a ≡ b
unfolding same_mode severity
same_mode-eq a b h = ground arith

-- What is asked of the callbacks and the other threads: that they keep these.
pub record KeepsMode (w : World) : Type 0 where
  pub consistent :
      (old new : SystemMode) (h : SystemHealth)
      → IsConsistent h
      → IsConsistent (w.mode_told old new h)
  pub shut : (id : ℕ) (b : Bool) (h : SystemHealth) → IsShut h → IsShut (w.health_told id b h)

pub IsShut-consistent : (h : SystemHealth) → IsConsistent h → IsShut h
unfolding same_mode
IsShut-consistent h v = ground arith

module _ (w : World) (keeps : KeepsMode w) where
  pub notify_mode_change-IsConsistent :
      (old new : SystemMode) (h : SystemHealth)
      → IsConsistent h
      → IsConsistent (notify_mode_change w old new h)
  unfolding notify_mode_change
  notify_mode_change-IsConsistent old new h v =
      if-elim IsConsistent h.has_mode_callback (λ set. keeps.consistent old new _ v) (λ unset. v)

  pub notify_health_change-IsShut :
      (id : ℕ) (b : Bool) (h : SystemHealth) → IsShut h → IsShut (notify_health_change w id b h)
  unfolding notify_health_change
  notify_health_change-IsShut id b h v =
      if-elim IsShut h.has_health_callback (λ set. keeps.shut id b _ v) (λ unset. v)

  -- `updateSystemMode` makes the mode follow, whatever the health has become.
  pub update_system_mode-IsConsistent :
      (h : SystemHealth) → IsShut h → IsConsistent (update_system_mode w h)
  unfolding update_system_mode
  update_system_mode-IsConsistent h v =
      if-elim IsConsistent h.shutdown_requested
        (λ on. ground (arith, same_mode-eq h.current_mode safe_shutdown))
        (λ off.
          let ready : IsConsistent (record h { current_mode = mode_of h.subsystems }) =
            ground arith in
          if-elim IsConsistent (same_mode h.current_mode (mode_of h.subsystems)) (λ same. ready)
            (λ other. notify_mode_change-IsConsistent h.current_mode _ _ ready))

  health_changed-IsConsistent :
      (id : ℕ) (b : Bool) (h : SystemHealth) → IsShut h → IsConsistent (health_changed w id b h)
  unfolding health_changed
  health_changed-IsConsistent id b h v =
      update_system_mode-IsConsistent _ (notify_health_change-IsShut id b h v)

-- The health of each subsystem, all that the mode depends on.
abbrev pub healths : List SubsystemStatus → List Bool
healths [] = []
healths (s ∷ ss) = s.healthy ∷ healths ss

abbrev count_false : List Bool → ℕ
count_false [] = 0
count_false (b ∷ bs) = (if b then 0 else 1) + count_false bs

abbrev at_or_false : ℕ → List Bool → Bool
at_or_false i bs = get_or bs i false

count_unhealthy-healths :
    (ss : List SubsystemStatus) → count_unhealthy ss ≡ count_false (healths ss)
unfolding count_unhealthy
count_unhealthy-healths [] = refl
count_unhealthy-healths (s ∷ ss) =
    ap (λ n. (if s.healthy then 0 else 1) + n) (count_unhealthy-healths ss)

healthy_at-healths :
    (id : ℕ) (ss : List SubsystemStatus) → healthy_at id ss ≡ at_or_false id (healths ss)
unfolding healthy_at
healthy_at-healths id [] = refl
healthy_at-healths zero (s ∷ ss) = refl
healthy_at-healths (suc id) (s ∷ ss) = healthy_at-healths id ss

mode_of-healths : (ss ts : List SubsystemStatus) → healths ss ≡ healths ts → mode_of ss ≡ mode_of ts
unfolding mode_of
mode_of-healths ss ts e =
    let count = count_unhealthy-healths ss ∙ ap count_false e ∙ sym (count_unhealthy-healths ts) in
    let can = healthy_at-healths 0 ss ∙ ap (at_or_false 0) e ∙ sym (healthy_at-healths 0 ts) in
    let camera = healthy_at-healths 1 ss ∙ ap (at_or_false 1) e ∙ sym (healthy_at-healths 1 ts) in
    simp (count, can, camera)

healths-modify :
    (id : ℕ) (f : SubsystemStatus → SubsystemStatus) (ss : List SubsystemStatus)
    → ((s : SubsystemStatus) → s.healthy ≡ healthy_at id ss → (f s).healthy ≡ s.healthy)
    → healths (modify id f ss) ≡ healths ss
unfolding healthy_at
healths-modify id f [] h = refl
healths-modify zero f (s ∷ ss) h = ap (λ b. b ∷ healths ss) (h s refl)
healths-modify (suc id) f (s ∷ ss) h = ap (λ bs. s.healthy ∷ bs) (healths-modify id f ss h)

-- A change of the subsystems that leaves the health alone keeps the mode right.
same_healths-IsConsistent :
    (h : SystemHealth) (ss : List SubsystemStatus)
    → healths ss ≡ healths h.subsystems
    → IsConsistent h
    → IsConsistent (record h { subsystems = ss })
same_healths-IsConsistent h ss e v =
    v
    ∙ ap (λ m. if h.shutdown_requested then safe_shutdown else m)
        (mode_of-healths h.subsystems ss (sym e))

module _ (w : World) (keeps : KeepsMode w) where
  -- A subsystem is set to a health, which may be the one that it has.
  marked-IsConsistent :
      (id : ℕ) (b : Bool) (f : SubsystemStatus → SubsystemStatus) (h : SystemHealth)
      → ((s : SubsystemStatus) → (f s).healthy ≡ b)
      → IsConsistent h
      → (healthy_at id h.subsystems ≡ b)
      → IsConsistent (record h { subsystems = modify id f h.subsystems })
  marked-IsConsistent id b f h sets v already =
      same_healths-IsConsistent h _
        (healths-modify id f h.subsystems (λ s e. sets s ∙ sym already ∙ sym e)) v

  pub report_heartbeat-IsConsistent :
      (now id : ℕ) (h : SystemHealth) → IsConsistent h → IsConsistent (report_heartbeat w now id h)
  unfolding report_heartbeat
  report_heartbeat-IsConsistent now id h v =
      if-elim IsConsistent (leb num_subsystems id) (λ unknown. v)
        (λ known.
          if-elim IsConsistent (healthy_at id h.subsystems)
            (λ was. marked-IsConsistent id true _ h (λ s. refl) v was)
            (λ was. health_changed-IsConsistent w keeps id true _ (IsShut-consistent h v)))

  pub report_recovery-IsConsistent :
      (now id : ℕ) (h : SystemHealth) → IsConsistent h → IsConsistent (report_recovery w now id h)
  unfolding report_recovery
  report_recovery-IsConsistent now id h v =
      if-elim IsConsistent (leb num_subsystems id) (λ unknown. v)
        (λ known.
          if-elim IsConsistent (healthy_at id h.subsystems)
            (λ was. marked-IsConsistent id true _ h (λ s. refl) v was)
            (λ was. health_changed-IsConsistent w keeps id true _ (IsShut-consistent h v)))

  pub report_error-IsConsistent :
      (id : ℕ) (message : String) (is_fatal : Bool) (h : SystemHealth)
      → IsConsistent h
      → IsConsistent (report_error w id message is_fatal h)
  unfolding report_error
  report_error-IsConsistent id message is_fatal h v =
      let counted : SystemHealth = record h {
        subsystems =
            modify id
              (λ s. record s { error_count = u32 (s.error_count + 1); last_error = message })
              h.subsystems;
      } in
      let still : IsConsistent counted =
        same_healths-IsConsistent h _ (healths-modify id _ h.subsystems (λ s e. refl)) v in
      if-elim IsConsistent (leb num_subsystems id) (λ unknown. v)
        (λ known.
          if-elim IsConsistent is_fatal
            (λ fatal.
              if-elim IsConsistent (healthy_at id counted.subsystems)
                (λ was. health_changed-IsConsistent w keeps id false _ (IsShut-consistent h v))
                (λ was. marked-IsConsistent id false _ counted (λ s. refl) still was))
            (λ mild. still))

  pub set_subsystem_health-IsConsistent :
      (now id : ℕ) (b : Bool) (h : SystemHealth)
      → IsConsistent h
      → IsConsistent (set_subsystem_health w now id b h)
  unfolding set_subsystem_health
  set_subsystem_health-IsConsistent now id true h v =
      if-elim IsConsistent (leb num_subsystems id) (λ unknown. v)
        (λ known.
          if-elim IsConsistent (healthy_at id h.subsystems)
            (λ was. marked-IsConsistent id true _ h (λ s. refl) v was)
            (λ was. health_changed-IsConsistent w keeps id true _ (IsShut-consistent h v)))
  set_subsystem_health-IsConsistent now id false h v =
      if-elim IsConsistent (leb num_subsystems id) (λ unknown. v)
        (λ known.
          if-elim IsConsistent (healthy_at id h.subsystems)
            (λ was. health_changed-IsConsistent w keeps id false _ (IsShut-consistent h v))
            (λ was. marked-IsConsistent id false _ h (λ s. refl) v was))

  pub set_subsystem_timeout-IsConsistent :
      (id timeout : ℕ) (h : SystemHealth)
      → IsConsistent h
      → IsConsistent (set_subsystem_timeout id timeout h)
  unfolding set_subsystem_timeout
  set_subsystem_timeout-IsConsistent id timeout h v =
      if-elim IsConsistent (leb num_subsystems id) (λ unknown. v)
        (λ known. same_healths-IsConsistent h _ (healths-modify id _ h.subsystems (λ s e. refl)) v)
