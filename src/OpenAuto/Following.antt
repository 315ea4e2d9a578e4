-- ===== src/OpenAuto/Following.antt =====
-- The controller follows the machine of restarts through the signals of its process.
use rpi_speeduino_dashboard.Common.{
  ◌<>◌, arith, ℕ, ◌+◌, ◌*◌, ◌^◌, ◌<◌, ◌≡◌, refl, sym, ap, ◌∙◌, min, Bool, true, false, ◌∷◌, String,
  str_eq, if-elim, ltb,
}
use rpi_speeduino_dashboard.Common.Int.{ℤ}
use rpi_speeduino_dashboard.OpenAuto.State.{start_again, Controller, Texts, max_crash_restarts}
use rpi_speeduino_dashboard.OpenAuto.Slots.{
  end_process, tell_crash, on_process_started, on_process_finished, after_crash, reset_crashes,
}
use rpi_speeduino_dashboard.OpenAuto.Output.{
  says_connected, says_disconnected, Event, has_started, has_finished, has_failed, has_written,
  on_process_error, on_ready_read_stdout, on_event,
}
use rpi_speeduino_dashboard.OpenAuto.Supervisor.{
  Supervisor, crash, supervise, view, IsBackedOff, IsBackedOff-same, Keeps, Keeps-same,
  set_error-Keeps, set_connected-Keeps, doubled, crash-again, crash-given_up, both-if, followed,
}

module _ (q : Texts) (now : ℕ) where
  after_crash-view :
      (c t : Controller) (r : Bool)
      → IsBackedOff c
      → view t ≡ record (view c) { running = r; attempts = c.crash_restart_count + 1 }
      → t.current_restart_delay_ms ≡ c.current_restart_delay_ms
      → (view (after_crash q now t) ≡ crash now (record (view c) { running = r }))
        × IsBackedOff (after_crash q now t)
  unfolding after_crash reset_crashes
  after_crash-view c t r b v d =
      let count : t.crash_restart_count ≡ c.crash_restart_count + 1 = ap (λ s. s.attempts) v in
      let count_of = b.count in
      if-elim (λ u. (view u ≡ crash now (record (view c) { running = r })) × IsBackedOff u)
        (ltb max_crash_restarts t.crash_restart_count)
        (λ e.
          let full : c.crash_restart_count ≡ 3 = ground arith in
          (
            ap {A = Supervisor} {B = Supervisor} (λ s. record s { attempts = 0 })
                  ((set_error-Keeps _ t).view_eq ∙ v)
                ∙ sym (crash-given_up now _ full),
            record { count = omega arith; delay = refl },
          ))
        (λ e.
          let below : c.crash_restart_count < 3 = ground arith in
          (
            ap {A = Supervisor} {B = Supervisor}
                  (λ s. record s {
                    timers =
                        record { due = now + t.current_restart_delay_ms; action = start_again }
                        ∷ s.timers;
                  })
                  v
                ∙ ap
                    (λ n. record (view c) {
                      running = r;
                      attempts = c.crash_restart_count + 1;
                      timers = record { due = now + n; action = start_again } ∷ c.timers;
                    })
                    (d ∙ b.delay)
                ∙ sym (crash-again now _ below),
            record {
              count = omega (arith, count, below);
              delay =
                  ap (λ n. min (n * 2) 30000) (d ∙ b.delay)
                  ∙ doubled _ below
                  ∙ ap (λ n. 2000 * 2 ^ n) (sym count);
            },
          ))

  end_process-view : (c : Controller) → view (end_process c) ≡ record (view c) { running = false }
  unfolding end_process
  end_process-view c = (set_connected-Keeps false _).view_eq

  end_process-delay :
      (c : Controller) → (end_process c).current_restart_delay_ms ≡ c.current_restart_delay_ms
  unfolding end_process
  end_process-delay c = (set_connected-Keeps false _).delay_eq

  tell_crash-Keeps : (exit_code : ℤ) (c : Controller) → Keeps c (tell_crash q exit_code c)
  unfolding tell_crash
  tell_crash-Keeps exit_code c =
      let k = set_error-Keeps ("OpenAuto crashed with exit code " <> q.number exit_code) c in
      record { view_eq = k.view_eq; delay_eq = k.delay_eq; commands_eq = k.commands_eq }

  on_process_finished-view :
      (exit_code : ℤ) (is_crash : Bool) (c : Controller)
      → IsBackedOff c
      → (view (on_process_finished q now exit_code is_crash c)
          ≡ supervise now (has_finished exit_code is_crash) (view c))
        × IsBackedOff (on_process_finished q now exit_code is_crash c)
  unfolding on_process_finished supervise reset_crashes
  on_process_finished-view exit_code false c b = (
    ap {A = Supervisor} {B = Supervisor} (λ s. record s { attempts = 0 }) (end_process-view c),
    record { count = omega arith; delay = refl },
  )
  on_process_finished-view exit_code true c b =
      let ended = end_process c in
      let told = tell_crash q exit_code ended in
      let k = tell_crash-Keeps exit_code ended in
      let v : view told ≡ record (view c) { running = false } = k.view_eq ∙ end_process-view c in
      let d = k.delay_eq ∙ end_process-delay c in
      both-if c.auto_start _ told _ _
        (after_crash-view c (record told { crash_restart_count = told.crash_restart_count + 1 })
          false b
          (ap {A = Supervisor} {B = Supervisor} (λ s. record s { attempts = s.attempts + 1 }) v) d)
        (v, IsBackedOff-same c told (ap (λ s. s.attempts) v) d b)

  on_ready_read_stdout-Keeps :
      (output : String) (c : Controller) → Keeps c (on_ready_read_stdout q output c)
  unfolding on_ready_read_stdout
  on_ready_read_stdout-Keeps output c =
      let up = set_connected-Keeps true c in
      if-elim (Keeps c) (str_eq output "") (λ e. Keeps-same c)
        (λ e.
          if-elim (Keeps c) (says_connected q output)
            (λ e. record {
              view_eq = up.view_eq;
              delay_eq = up.delay_eq;
              commands_eq = up.commands_eq;
            })
            (λ e.
              if-elim (Keeps c) (says_disconnected q output) (λ e. set_connected-Keeps false c)
                (λ e.
                  if-elim (Keeps c) (q.contains output "Wireless connection")
                    (λ e. record { view_eq = refl; delay_eq = refl; commands_eq = refl })
                    (λ e. Keeps-same c))))

  -- The controller follows the machine through every signal of its process.
  pub on_event-view :
      (e : Event) (c : Controller)
      → IsBackedOff c
      → (view (on_event q now e c) ≡ supervise now e (view c)) × IsBackedOff (on_event q now e c)
  unfolding on_event supervise on_process_started on_process_error
  on_event-view has_started c b = (refl, record { count = b.count; delay = b.delay })
  on_event-view (has_finished exit_code is_crash) c b =
      on_process_finished-view exit_code is_crash c b
  on_event-view (has_failed error) c b = followed c _ (set_error-Keeps _ c) b
  on_event-view (has_written output) c b = followed c _ (on_ready_read_stdout-Keeps output c) b
