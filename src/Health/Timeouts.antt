-- ===== src/Health/Timeouts.antt =====
-- Which subsystems `checkTimeouts` marks, and how long a heartbeat lasts.
use rpi_speeduino_dashboard.Common.{
  ℕ, zero, suc, ◌+◌, ◌*◌, ◌-◌, ◌/◌, ◌<◌, ltb, not, ◌&&◌, ◌≡◌, refl, sym, ap, ◌∙◌, inl, inr, Bool,
  true, false, List, [], ◌∷◌, none, some, map, arith, leb, if◌then◌else◌, if-elim, get_elem?,
  length, modify, Option-cases,
}
use rpi_speeduino_dashboard.Health.State.{
  SystemMode, SubsystemStatus, SystemHealth, num_subsystems, healthy_at, same_mode, mode_of,
}
use rpi_speeduino_dashboard.Health.Methods.{
  World, notify_mode_change, notify_health_change, update_system_mode, health_changed,
  report_heartbeat, is_late, check_one, check_from, check_timeouts, is_subsystem_healthy,
}

-- A subsystem stays healthy until a millisecond more than its timeout has passed since its last
-- heartbeat; nothing else of it changes.
unfoldable pub expire : ℕ → SubsystemStatus → SubsystemStatus
expire now s = record s {
  healthy = s.healthy && ltb now (s.last_heartbeat + (s.timeout + 1) * 1000000);
}

-- A subsystem that is late is no longer healthy; the others stay as they are.
unfoldable mark : ℕ → SubsystemStatus → SubsystemStatus
mark now s = if is_late now s then record s { healthy = false } else s

-- The callbacks and the other threads leave the subsystems alone.
pub record IsQuiet (w : World) : Type 0 where
  pub mode :
      (old new : SystemMode) (h : SystemHealth) → (w.mode_told old new h).subsystems ≡ h.subsystems
  pub health :
      (id : ℕ) (b : Bool) (h : SystemHealth) → (w.health_told id b h).subsystems ≡ h.subsystems

-- The subsystems from `i` on mark, `n` of them.
mark_range : ℕ → ℕ → ℕ → List SubsystemStatus → List SubsystemStatus
mark_range now zero i ss = ss
mark_range now (suc n) i ss = mark_range now n (suc i) (modify i (mark now) ss)

modify-late :
    (now i : ℕ) (ss : List SubsystemStatus) {t : SubsystemStatus}
    → get_elem? ss i ≡ some t
    → is_late now t ≡ true
    → modify i (λ s. record s { healthy = false }) ss ≡ modify i (mark now) ss
unfolding mark
modify-late now i [] e late = refl
modify-late now zero (s ∷ ss) {t} e late =
    let same : is_late now s ≡ true = cc in
    sym (ap (λ b. (if b then record s { healthy = false } else s) ∷ ss) same)
modify-late now (suc i) (s ∷ ss) e late = ap (λ ts. s ∷ ts) (modify-late now i ss e late)

modify-fresh :
    (now i : ℕ) (ss : List SubsystemStatus) {t : SubsystemStatus}
    → get_elem? ss i ≡ some t
    → is_late now t ≡ false
    → ss ≡ modify i (mark now) ss
unfolding mark
modify-fresh now i [] e fresh = refl
modify-fresh now zero (s ∷ ss) {t} e fresh =
    let same : is_late now s ≡ false = cc in
    sym (ap (λ b. (if b then record s { healthy = false } else s) ∷ ss) same)
modify-fresh now (suc i) (s ∷ ss) e fresh = ap (λ ts. s ∷ ts) (modify-fresh now i ss e fresh)

modify-none :
    (f : SubsystemStatus → SubsystemStatus) (i : ℕ) (ss : List SubsystemStatus)
    → get_elem? ss i ≡ none
    → ss ≡ modify i f ss
modify-none f i [] e = refl
modify-none f zero (s ∷ ss) e = cc
modify-none f (suc i) (s ∷ ss) e = ap (λ ts. s ∷ ts) (modify-none f i ss e)

late_from :
    (now last timeout : ℕ)
    → ltb timeout ((now - last) / 1000000) ≡ not (ltb now (last + (timeout + 1) * 1000000))
late_from now last timeout = ground arith

when_late :
    (s : SubsystemStatus) (h b : Bool)
    → s.healthy ≡ h
    → (if h && not b then record s { healthy = false } else s) ≡ record s { healthy = h && b }
when_late s true true e = ap (λ h. record s { healthy = h }) e
when_late s true false e = refl
when_late s false b e = ap (λ h. record s { healthy = h }) e

mark-expire : (now : ℕ) (s : SubsystemStatus) → mark now s ≡ expire now s
unfolding mark expire is_late
mark-expire now s =
    ap (λ b. if s.healthy && b then record s { healthy = false } else s)
      (late_from now s.last_heartbeat s.timeout)
    ∙ when_late s s.healthy (ltb now (s.last_heartbeat + (s.timeout + 1) * 1000000)) refl

map-same :
    (f g : SubsystemStatus → SubsystemStatus)
    → ((s : SubsystemStatus) → f s ≡ g s)
    → (ss : List SubsystemStatus) → map f ss ≡ map g ss
map-same f g same [] = refl
map-same f g same (s ∷ ss) =
    ap (λ t. t ∷ map f ss) (same s) ∙ ap (λ ts. g s ∷ ts) (map-same f g same ss)

module _ (w : World) (quiet : IsQuiet w) where
  notify_mode_change-subsystems :
      (old new : SystemMode) (h : SystemHealth)
      → (notify_mode_change w old new h).subsystems ≡ h.subsystems
  unfolding notify_mode_change
  notify_mode_change-subsystems old new h =
      if-elim {A = SystemHealth} (λ v. v.subsystems ≡ h.subsystems) h.has_mode_callback
        (λ set. quiet.mode old new _) (λ unset. refl)

  notify_health_change-subsystems :
      (id : ℕ) (b : Bool) (h : SystemHealth)
      → (notify_health_change w id b h).subsystems ≡ h.subsystems
  unfolding notify_health_change
  notify_health_change-subsystems id b h =
      if-elim {A = SystemHealth} (λ v. v.subsystems ≡ h.subsystems) h.has_health_callback
        (λ set. quiet.health id b _) (λ unset. refl)

  update_system_mode-subsystems :
      (h : SystemHealth) → (update_system_mode w h).subsystems ≡ h.subsystems
  unfolding update_system_mode
  update_system_mode-subsystems h =
      if-elim {A = SystemHealth} (λ v. v.subsystems ≡ h.subsystems) h.shutdown_requested
        (λ on. refl)
        (λ off.
          if-elim {A = SystemHealth} (λ v. v.subsystems ≡ h.subsystems)
            (same_mode h.current_mode (mode_of h.subsystems)) (λ same. refl)
            (λ other. notify_mode_change-subsystems h.current_mode _ _))

  check_one-subsystems :
      (now i : ℕ) (c : Bool × SystemHealth)
      → (check_one w now i c).1.subsystems ≡ modify i (mark now) c.1.subsystems
  unfolding check_one
  check_one-subsystems now i (any, h) = elim (Option-cases (get_elem? h.subsystems i)) [
    | inl none_there ↦ rw (none_there, check_one) (modify-none (mark now) i h.subsystems none_there)
    | inr (s, there) ↦
        rw (there, check_one)
          (if-elim {A = Bool × SystemHealth}
            (λ c. c.1.subsystems ≡ modify i (mark now) h.subsystems) (is_late now s)
            (λ late.
              notify_health_change-subsystems s.id false _
              ∙ modify-late now i h.subsystems there late)
            (λ fresh. modify-fresh now i h.subsystems there fresh))
  ]

  check_from-subsystems :
      (now n i : ℕ) (c : Bool × SystemHealth)
      → (check_from w now n i c).1.subsystems ≡ mark_range now n i c.1.subsystems
  unfolding check_from mark_range
  check_from-subsystems now zero i c = refl
  check_from-subsystems now (suc n) i c =
      check_from-subsystems now n (suc i) (check_one w now i c)
      ∙ ap (mark_range now n (suc i)) (check_one-subsystems now i c)

  range_all :
      (now : ℕ) (ss : List SubsystemStatus)
      → length ss ≡ num_subsystems
      → mark_range now num_subsystems 0 ss ≡ map (mark now) ss
  unfolding mark_range
  range_all now (a ∷ b ∷ c ∷ d ∷ e ∷ f ∷ []) six = refl
  range_all now ss six = absurd (omega arith)

  check_timeouts-marks :
      (now : ℕ) (h : SystemHealth)
      → length h.subsystems ≡ num_subsystems
      → (check_timeouts w now h).subsystems ≡ map (mark now) h.subsystems
  unfolding check_timeouts
  check_timeouts-marks now h six =
      let checked = check_from w now num_subsystems 0 (false, h) in
      if-elim {A = SystemHealth} (λ v. v.subsystems ≡ checked.1.subsystems) checked.0
        (λ changed. update_system_mode-subsystems checked.1) (λ same. refl)
      ∙ check_from-subsystems now num_subsystems 0 (false, h)
      ∙ range_all now h.subsystems six

  -- With callbacks that leave the subsystems alone, after `checkTimeouts` a subsystem is healthy exactly
  -- if it was healthy before and less than a millisecond more than its timeout has passed since its
  -- last heartbeat; nothing else of any subsystem changes.
  pub check_timeouts-subsystems :
      (now : ℕ) (h : SystemHealth)
      → length h.subsystems ≡ num_subsystems
      → (check_timeouts w now h).subsystems ≡ map (expire now) h.subsystems
  check_timeouts-subsystems now h six =
      check_timeouts-marks now h six
      ∙ map-same (mark now) (expire now) (mark-expire now) h.subsystems

  get_elem-modify :
      (f : SubsystemStatus → SubsystemStatus) (i : ℕ) (ss : List SubsystemStatus)
      (s : SubsystemStatus)
      → get_elem? ss i ≡ some s
      → (get_elem? (modify i f ss) i ≡ some (f s)) × (length (modify i f ss) ≡ length ss)
  get_elem-modify f i [] s e = cc
  get_elem-modify f zero (t ∷ ss) s e = (cc, refl)
  get_elem-modify f (suc i) (t ∷ ss) s e =
      let (there, long) = get_elem-modify f i ss s e in (there, omega arith)

  get_elem-map :
      (f : SubsystemStatus → SubsystemStatus) (i : ℕ) (ss : List SubsystemStatus)
      (s : SubsystemStatus)
      → get_elem? ss i ≡ some s
      → get_elem? (map f ss) i ≡ some (f s)
  get_elem-map f i [] s e = cc
  get_elem-map f zero (t ∷ ss) s e = cc
  get_elem-map f (suc i) (t ∷ ss) s e = get_elem-map f i ss s e

  health_changed-subsystems :
      (id : ℕ) (b : Bool) (h : SystemHealth) → (health_changed w id b h).subsystems ≡ h.subsystems
  unfolding health_changed
  health_changed-subsystems id b h =
      update_system_mode-subsystems (notify_health_change w id b h)
      ∙ notify_health_change-subsystems id b h

  healthy_at-some :
      (id : ℕ) (ss : List SubsystemStatus) (s : SubsystemStatus)
      → get_elem? ss id ≡ some s
      → healthy_at id ss ≡ s.healthy
  unfolding healthy_at
  healthy_at-some id ss s there = rw (there, healthy_at) refl

  report_heartbeat-subsystems :
      (t id : ℕ) (h : SystemHealth)
      → id < num_subsystems
      → (report_heartbeat w t id h).subsystems
        ≡ modify id (λ s. record s { last_heartbeat = t; healthy = true }) h.subsystems
  unfolding report_heartbeat
  report_heartbeat-subsystems t id h known =
      let beat = λ (s : SubsystemStatus). record s { last_heartbeat = t; healthy = true } in
      if-elim {A = SystemHealth} (λ v. v.subsystems ≡ modify id beat h.subsystems)
        (leb num_subsystems id) (λ unknown. absurd (ground arith))
        (λ valid.
          if-elim {A = SystemHealth} (λ v. v.subsystems ≡ modify id beat h.subsystems)
            (healthy_at id h.subsystems) (λ was. refl) (λ was. health_changed-subsystems id true _))

  beaten_mark :
      (t now : ℕ) (s : SubsystemStatus)
      → (mark now (record s { last_heartbeat = t; healthy = true })).healthy
        ≡ leb ((now - t) / 1000000) s.timeout
  unfolding mark is_late
  beaten_mark t now s = ground arith

  -- A heartbeat lasts as long as the timeout: a subsystem that reports at `t` and is checked at `now` is
  -- healthy then exactly if no more milliseconds than its timeout have passed, whatever its health was
  -- before.
  pub check_timeouts-report_heartbeat :
      (t now id : ℕ) (h : SystemHealth) (s : SubsystemStatus)
      → length h.subsystems ≡ num_subsystems
      → id < num_subsystems
      → get_elem? h.subsystems id ≡ some s
      → is_subsystem_healthy id (check_timeouts w now (report_heartbeat w t id h))
        ≡ leb ((now - t) / 1000000) s.timeout
  unfolding is_subsystem_healthy
  check_timeouts-report_heartbeat t now id h s six known there =
      let beat = λ (s : SubsystemStatus). record s { last_heartbeat = t; healthy = true } in
      let beaten = report_heartbeat-subsystems t id h known in
      let (there', long) = get_elem-modify beat id h.subsystems s there in
      let six' = ap length beaten ∙ long ∙ six in
      let checked =
        check_timeouts-marks now (report_heartbeat w t id h) six' ∙ ap (map (mark now)) beaten in
      let valid : leb num_subsystems id ≡ false = ground arith in
      rw (valid, is_subsystem_healthy)
        (ap (healthy_at id) checked
          ∙ healthy_at-some id (map (mark now) (modify id beat h.subsystems)) (mark now (beat s))
              (get_elem-map (mark now) id (modify id beat h.subsystems) (beat s) there')
          ∙ beaten_mark t now s)
