-- ===== src/OpenAuto/Loop.antt =====
-- A process that crashes two seconds after each start, and the check that it is stable.
use rpi_speeduino_dashboard.Common.{
  ◌<>◌, arith, ℕ, zero, suc, ◌+◌, ◌*◌, ◌≤◌, ◌≡◌, refl, sym, ap, ◌∙◌, subst, Bool, true, false, List,
  [], ◌∷◌, All, none, if-elim, get_elem?, ltb,
}
use rpi_speeduino_dashboard.Common.Int.{ℤ, pos}
use rpi_speeduino_dashboard.OpenAuto.State.{
  start_again, confirm_stable, Command, terminate, kill, set_environment, execute, Controller,
  Texts, max_crash_restarts,
}
use rpi_speeduino_dashboard.OpenAuto.Slots.{
  on_process_started, on_process_finished, after_crash, tell_crash, end_process, reset_crashes,
  on_stable,
}
use rpi_speeduino_dashboard.OpenAuto.Output.{has_started, has_finished, on_event, deliver}
use rpi_speeduino_dashboard.OpenAuto.Control.{Answers, clear_process, launch, start}
use rpi_speeduino_dashboard.OpenAuto.Steps.{
  remove, perform, waits, signals, fires, Reach, here, next,
}
use rpi_speeduino_dashboard.OpenAuto.Supervisor.{
  Supervisor, crash, supervise, view, IsBackedOff, set_error-Keeps, clear_error-Keeps,
  set_connected-Keeps,
}
use rpi_speeduino_dashboard.OpenAuto.Following.{on_event-view}
use rpi_speeduino_dashboard.OpenAuto.Reachable.{along-IsBackedOff}

-- A system where the executable exists and the process starts in time.
abbrev pub healthy : Answers
healthy = record {
  exists = λ path. true;
  home = "/home/pi";
  environment = [];
  has_process = true;
  is_idle = true;
  on_kill = [];
  on_start = has_started ∷ [];
  starts_in_time = true;
  on_terminate = [];
  ends_in_time = true;
}

abbrev is_execute : Command → ℕ
is_execute terminate = 0
is_execute kill = 0
is_execute (set_environment env) = 0
is_execute (execute path) = 1

-- How often the process was started.
abbrev pub execute_count : List Command → ℕ
execute_count [] = 0
execute_count (c ∷ cs) = is_execute c + execute_count cs

-- The process started at t, and the start before it was four seconds earlier.
abbrev pub looping : ℕ → ℕ → Supervisor
looping t attempts = record {
  running = true;
  automatic = true;
  attempts = attempts;
  timers =
      record { due = t + 5000; action = confirm_stable }
      ∷ record { due = t + 1000; action = confirm_stable }
      ∷ [];
}

-- It is seen as stable one second later.
abbrev settled : ℕ → Supervisor
settled t = record {
  running = true;
  automatic = true;
  attempts = 0;
  timers = record { due = t + 5000; action = confirm_stable } ∷ [];
}

-- It crashes another second later.
abbrev fallen : ℕ → Supervisor
fallen t = record {
  running = false;
  automatic = true;
  attempts = 1;
  timers =
      record { due = t + 2000 + 2000; action = start_again }
      ∷ record { due = t + 5000; action = confirm_stable }
      ∷ [];
}

-- Four seconds of the loop, from a start at t: a second later the timer of the start before fires,
-- another second later the process crashes, and the timer of the restart fires two seconds after
-- that and starts it again.
module _ (q : Texts) where
  unfoldable pub after_check : ℕ → Controller → Controller
  after_check t c =
      perform q healthy none (t + 1000) confirm_stable (record c { timers = remove 1 c.timers })

  unfoldable pub after_fall : ℕ → Controller → Controller
  after_fall t c = on_event q (t + 2000) (has_finished (pos 139) true) c

  unfoldable pub after_restart : ℕ → Controller → Controller
  after_restart t c =
      perform q healthy none (t + 4000) start_again (record c { timers = remove 0 c.timers })

  abbrev pub crash_round : ℕ → Controller → Controller
  crash_round t c = after_restart t (after_fall t (after_check t c))

  unfoldable pub crash_rounds : ℕ → ℕ → Controller → Controller
  crash_rounds zero t c = c
  crash_rounds (suc n) t c = crash_rounds n (t + 4000) (crash_round t c)

-- The crashes that are counted after n rounds, when k were counted before them.
abbrev pub counted_after : ℕ → ℕ → ℕ
counted_after zero k = k
counted_after (suc n) k = 1

module _ (q : Texts) where
  start-view :
      (now : ℕ) (c : Controller)
      → c.running ≡ false
      → (view (start q healthy now c).0 ≡ record (view c) {
        running = true;
        timers = record { due = now + 5000; action = confirm_stable } ∷ c.timers;
      })
        × (execute_count (start q healthy now c).0.commands ≡ 1 + execute_count c.commands)
  unfolding start launch clear_process deliver on_event on_process_started
  start-view now c idle =
      let k = clear_error-Keeps c in
      if-elim
        (λ (r : Controller × Bool).
          (view r.0 ≡ record (view c) {
            running = true;
            timers = record { due = now + 5000; action = confirm_stable } ∷ c.timers;
          })
          × (execute_count r.0.commands ≡ 1 + execute_count c.commands))
        c.running (λ e. absurd (ground (arith, e, idle)))
        (λ e. (
          ap {A = Supervisor} {B = Supervisor}
              (λ s. record s {
                running = true;
                timers = record { due = now + 5000; action = confirm_stable } ∷ s.timers;
              })
              k.view_eq,
          omega (arith, ap execute_count k.commands_eq),
        ))

  crash-commands :
      (now : ℕ) (code : ℤ) (c : Controller)
      → (on_event q now (has_finished code true) c).commands ≡ c.commands
  unfolding on_event on_process_finished after_crash reset_crashes tell_crash end_process
  crash-commands now code c =
      let message = "OpenAuto crashed with exit code " <> q.number code in
      let told : (tell_crash q code (end_process c)).commands ≡ c.commands =
        (set_error-Keeps message _).commands_eq ∙ (set_connected-Keeps false _).commands_eq in
      if-elim (λ (r : Controller). r.commands ≡ c.commands) c.auto_start
        (λ e.
          if-elim (λ (r : Controller). r.commands ≡ c.commands)
            (ltb max_crash_restarts ((tell_crash q code (end_process c)).crash_restart_count + 1))
            (λ e. (set_error-Keeps _ _).commands_eq ∙ told) (λ e. told))
        (λ e. told)

  on_stable-view :
      (c : Controller)
      → c.running ≡ true
      → (view (on_stable c) ≡ record (view c) { attempts = 0 })
        × ((on_stable c).commands ≡ c.commands)
  unfolding on_stable reset_crashes
  on_stable-view c running =
      if-elim
        (λ (r : Controller).
          (view r ≡ record (view c) { attempts = 0 }) × (r.commands ≡ c.commands))
        c.running (λ e. (refl, refl)) (λ e. absurd (ground (arith, e, running)))

  -- The process is seen as stable, by the timer of the start before.
  settle :
      (t k : ℕ) (c : Controller)
      → view c ≡ looping t k
      → Reach q (t, c) (t + 1000, after_check q t c)
        × (view (after_check q t c) ≡ settled t)
        × ((after_check q t c).commands ≡ c.commands)
  unfolding perform after_check
  settle t k c v =
      let timers : c.timers ≡ (looping t k).timers = ap (λ s. s.timers) v in
      let kept : Controller = record c { timers = remove 1 c.timers } in
      let (seen, commands) = on_stable-view kept (ap (λ s. s.running) v) in
      (
        next
            (next here (
              waits (omega arith) (
                subst (All (λ tm. t + 1000 ≤ tm.due)) (sym timers)
                  (omega arith, (omega arith, tt)))))
            (fires 1 (record { due = t + 1000; action = confirm_stable }) healthy none
              (ap (λ ts. get_elem? ts 1) timers) (omega arith)),
        seen
            ∙ ap {A = Supervisor} {B = Supervisor}
                (λ s. record s { attempts = 0; timers = remove 1 s.timers }) v,
        commands,
      )

  fall :
      (t : ℕ) (c : Controller)
      → IsBackedOff c
      → view c ≡ settled t
      → Reach q (t + 1000, c) (t + 2000, after_fall q t c)
        × (view (after_fall q t c) ≡ fallen t)
        × ((after_fall q t c).commands ≡ c.commands)
  unfolding supervise crash after_fall
  fall t c b v = (
    next
        (next here (
          waits (omega arith)
            (subst (All (λ tm. t + 2000 ≤ tm.due)) (sym (ap (λ s. s.timers) v)) (omega arith, tt))))
        (signals (has_finished (pos 139) true)),
    (on_event-view q (t + 2000) (has_finished (pos 139) true) c b).0
        ∙ ap (supervise (t + 2000) (has_finished (pos 139) true)) v,
    crash-commands (t + 2000) (pos 139) c,
  )

  rise :
      (t : ℕ) (c : Controller)
      → view c ≡ fallen t
      → Reach q (t + 2000, c) (t + 4000, after_restart q t c)
        × (view (after_restart q t c) ≡ looping (t + 4000) 1)
        × (execute_count (after_restart q t c).commands ≡ 1 + execute_count c.commands)
  unfolding perform after_restart
  rise t c v =
      let timers : c.timers ≡ (fallen t).timers = ap (λ s. s.timers) v in
      let kept : Controller = record c { timers = remove 0 c.timers } in
      let (seen, executes) = start-view (t + 4000) kept (ap (λ s. s.running) v) in
      (
        next
            (next here (
              waits (omega arith) (
                subst (All (λ tm. t + 4000 ≤ tm.due)) (sym timers)
                  (omega arith, (omega arith, tt)))))
            (fires 0 (record { due = t + 2000 + 2000; action = start_again }) healthy none
              (ap (λ ts. get_elem? ts 0) timers) (omega arith)),
        seen
            ∙ ap {A = Supervisor} {B = Supervisor}
                (λ s. record s {
                  running = true;
                  timers =
                      record { due = t + 4000 + 5000; action = confirm_stable } ∷ remove 0 s.timers;
                })
                v
            ∙ ap {A = ℕ} {B = Supervisor}
                (λ n. record {
                  running = true;
                  automatic = true;
                  attempts = 1;
                  timers =
                      record { due = t + 4000 + 5000; action = confirm_stable }
                      ∷ record { due = n; action = confirm_stable }
                      ∷ [];
                })
                (omega arith),
        executes,
      )

  Reach-trans : {x y z : ℕ × Controller} → Reach q x y → Reach q y z → Reach q x z
  Reach-trans r here = r
  Reach-trans r (next s h) = next (Reach-trans r s) h

  cycle :
      (t k : ℕ) (c : Controller)
      → IsBackedOff c
      → view c ≡ looping t k
      → Reach q (t, c) (t + 4000, crash_round q t c)
        × (view (crash_round q t c) ≡ looping (t + 4000) 1)
        × (execute_count (crash_round q t c).commands ≡ 1 + execute_count c.commands)
  cycle t k c b v =
      let (r1, v1, e1) = settle t k c v in
      let (r2, v2, e2) = fall t _ (along-IsBackedOff q r1 b) v1 in
      let (r3, v3, e3) = rise t _ v2 in
      (
        Reach-trans r1 (Reach-trans r2 r3),
        v3,
        omega (arith, e3, ap execute_count e2, ap execute_count e1),
      )

-- A process that crashes two seconds after each start, once the controller has started it four seconds
-- after the start before and that start's timer is pending: for every n the n rounds of crash,
-- pause and restart can happen, in 4 n seconds; after them the process has been started n times
-- more and runs, one crash is counted, if n is not 0, so that the loop is never found however
-- many crashes there were, and the timer of the start before is pending again.
pub looping-crash_rounds :
    (q : Texts) (n t k : ℕ) (c : Controller)
    → IsBackedOff c
    → view c ≡ looping t k
    → Reach q (t, c) (t + 4000 * n, crash_rounds q n t c)
      × (view (crash_rounds q n t c) ≡ looping (t + 4000 * n) (counted_after n k))
      × (execute_count (crash_rounds q n t c).commands ≡ n + execute_count c.commands)
unfolding crash_rounds
looping-crash_rounds q zero t k c b v = (
  subst (λ u. Reach q (t, c) (u, c)) (omega arith) here,
  v ∙ ap (λ u. looping u k) (omega arith),
  omega arith,
)
looping-crash_rounds q (suc n) t k c b v =
    let (r1, v1, e1) = cycle q t k c b v in
    let (r, w, e) =
      looping-crash_rounds q n (t + 4000) 1 (crash_round q t c) (along-IsBackedOff q r1 b) v1 in
    let later : t + 4000 + 4000 * n ≡ t + 4000 * suc n = omega arith in
    (
      subst (λ u. Reach q (t, c) (u, crash_rounds q n (t + 4000) (crash_round q t c))) later
          (Reach-trans q r1 r),
      w
          ∙ ap (λ u. looping u (counted_after n 1)) later
          ∙ ap (λ m. looping (t + 4000 * suc n) m) (once n),
      omega (arith, e, e1),
    )
  where
    once : (n : ℕ) → counted_after n 1 ≡ 1
    once zero = refl
    once (suc n) = refl
