-- ===== src/ErrorHandler/Statistics.antt =====
-- The statistics that an error frame leaves, field by field.
use rpi_speeduino_dashboard.Common.{ℕ, ◌+◌, ◌≡◌, refl, ◌∷◌, has, arith, if◌then◌else◌, u64}
use rpi_speeduino_dashboard.ErrorHandler.Text.{CanErrors}
use rpi_speeduino_dashboard.ErrorHandler.State.{BusState, Stats, at, Handler, ErrorData}
use rpi_speeduino_dashboard.ErrorHandler.Process.{
  Work, update_state, update_if, controller_states, on_tx_timeout, on_lost_arbitration,
  on_controller, on_protocol, on_transceiver, on_no_ack, on_bus_off, on_bus_error, on_restarted,
  start_frame, finish_frame, process_error_frame,
}

-- The statistics after a frame: one more error, and one more of each kind that the frame reports.
unfoldable pub counted_stats : CanErrors → ℕ → ℕ → Stats → Stats
counted_stats k now id s = record {
  total_errors = u64 (s.total_errors + 1);
  tx_timeouts = if has id k.err_tx_timeout then u64 (s.tx_timeouts + 1) else s.tx_timeouts;
  arbitration_losses =
      if has id k.err_lostarb then u64 (s.arbitration_losses + 1) else s.arbitration_losses;
  protocol_errors = if has id k.err_prot then u64 (s.protocol_errors + 1) else s.protocol_errors;
  no_ack_errors = if has id k.err_ack then u64 (s.no_ack_errors + 1) else s.no_ack_errors;
  bus_off_events = if has id k.err_busoff then u64 (s.bus_off_events + 1) else s.bus_off_events;
  controller_restarts =
      if has id k.err_restarted then u64 (s.controller_restarts + 1) else s.controller_restarts;
  last_error = at now;
  last_bus_off = if has id k.err_busoff then at now else s.last_bus_off;
  last_recovery = if has id k.err_restarted then at now else s.last_recovery;
}

module _ (released : BusState → BusState → Handler → Handler)
    (keeps : (s t : BusState) (h : Handler) → (released s t h).stats ≡ h.stats)
    (k : CanErrors) where
  update_state-stats : (s : BusState) (h : Handler) → (update_state released s h).stats ≡ h.stats
  unfolding update_state
  update_state-stats s h = ground (
    arith,
    keeps h.current_state s
        (record h { current_state = s; transitions = (h.current_state, s) ∷ h.transitions }),
  )

  update_if-stats :
      (word mask : ℕ) (s : BusState) (h : Handler)
      → (update_if released word mask s h).stats ≡ h.stats
  unfolding update_if
  update_if-stats word mask s h = ground (arith, update_state-stats s h)

  controller_states-stats :
      (status : ℕ) (h : Handler) → (controller_states released k status h).stats ≡ h.stats
  unfolding controller_states
  controller_states-stats status h = simp update_if-stats

  on_tx_timeout-stats :
      (id : ℕ) (w : Work)
      → (on_tx_timeout released k id w).0.stats ≡ record (w.0.stats) {
        tx_timeouts =
            if has id k.err_tx_timeout
            then u64 (w.0.stats.tx_timeouts + 1)
            else w.0.stats.tx_timeouts;
      }
  unfolding on_tx_timeout
  on_tx_timeout-stats id w = ground arith

  on_lost_arbitration-stats :
      (id : ℕ) (d : ErrorData) (w : Work)
      → (on_lost_arbitration released k id d w).0.stats ≡ record (w.0.stats) {
        arbitration_losses =
            if has id k.err_lostarb
            then u64 (w.0.stats.arbitration_losses + 1)
            else w.0.stats.arbitration_losses;
      }
  unfolding on_lost_arbitration
  on_lost_arbitration-stats id d w = ground arith

  on_controller-stats :
      (id : ℕ) (d : ErrorData) (w : Work) → (on_controller released k id d w).0.stats ≡ w.0.stats
  unfolding on_controller
  on_controller-stats id d w = ground (arith, controller_states-stats d.d1 w.0)

  on_protocol-stats :
      (id : ℕ) (d : ErrorData) (w : Work)
      → (on_protocol released k id d w).0.stats ≡ record (w.0.stats) {
        protocol_errors =
            if has id k.err_prot
            then u64 (w.0.stats.protocol_errors + 1)
            else w.0.stats.protocol_errors;
      }
  unfolding on_protocol
  on_protocol-stats id d w = ground arith

  on_transceiver-stats : (id : ℕ) (w : Work) → (on_transceiver released k id w).0.stats ≡ w.0.stats
  unfolding on_transceiver
  on_transceiver-stats id w = ground arith

  on_no_ack-stats :
      (id : ℕ) (w : Work)
      → (on_no_ack released k id w).0.stats ≡ record (w.0.stats) {
        no_ack_errors =
            if has id k.err_ack then u64 (w.0.stats.no_ack_errors + 1) else w.0.stats.no_ack_errors;
      }
  unfolding on_no_ack
  on_no_ack-stats id w = ground arith

  on_bus_off-stats :
      (now id : ℕ) (w : Work)
      → (on_bus_off released k now id w).0.stats ≡ record (w.0.stats) {
        bus_off_events =
            if has id k.err_busoff
            then u64 (w.0.stats.bus_off_events + 1)
            else w.0.stats.bus_off_events;
        last_bus_off = if has id k.err_busoff then at now else w.0.stats.last_bus_off;
      }
  unfolding on_bus_off
  on_bus_off-stats now id w = grind (arith, update_state-stats)

  on_bus_error-stats : (id : ℕ) (w : Work) → (on_bus_error released k id w).0.stats ≡ w.0.stats
  unfolding on_bus_error
  on_bus_error-stats id w = ground arith

  on_restarted-stats :
      (now id : ℕ) (w : Work)
      → (on_restarted released k now id w).0.stats ≡ record (w.0.stats) {
        controller_restarts =
            if has id k.err_restarted
            then u64 (w.0.stats.controller_restarts + 1)
            else w.0.stats.controller_restarts;
        last_recovery = if has id k.err_restarted then at now else w.0.stats.last_recovery;
      }
  unfolding on_restarted
  on_restarted-stats now id w = grind (arith, update_state-stats)

  finish_frame-stats : (d : ErrorData) (w : Work) → (finish_frame released k d w).stats ≡ w.0.stats
  unfolding finish_frame
  finish_frame-stats d w = ground arith

  start_frame-stats :
      (now : ℕ) (h : Handler)
      → (start_frame released k now h).0.stats
        ≡ record (h.stats) { last_error = at now; total_errors = u64 (h.stats.total_errors + 1) }
  unfolding start_frame
  start_frame-stats now h = refl

  -- Provided that the callback and the other threads leave the statistics alone while the mutex is
  -- free, a frame leaves the statistics that `counted_stats` names.
  pub process_error_frame-stats :
      (now id : ℕ) (d : ErrorData) (h : Handler)
      → (process_error_frame released k now id d h).stats ≡ counted_stats k now id h.stats
  unfolding process_error_frame counted_stats
  process_error_frame-stats now id d h = simp (
    finish_frame-stats, on_restarted-stats, on_bus_error-stats, on_bus_off-stats, on_no_ack-stats,
    on_transceiver-stats, on_protocol-stats, on_controller-stats, on_lost_arbitration-stats,
    on_tx_timeout-stats, start_frame-stats,
  )
