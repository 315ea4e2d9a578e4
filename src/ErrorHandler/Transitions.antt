-- ===== src/ErrorHandler/Transitions.antt =====
-- The bus state after an error frame, and the state changes that the callback is told of.
use rpi_speeduino_dashboard.Common.{
  ℕ, ◌≡◌, refl, ◌≢◌, true, false, ◌&&◌, ◌||◌, ◌∷◌, has, arith, if◌then◌else◌,
}
use rpi_speeduino_dashboard.ErrorHandler.Text.{CanErrors}
use rpi_speeduino_dashboard.ErrorHandler.State.{
  BusState, error_active, error_warning, error_passive, bus_off, Handler, ErrorData,
}
use rpi_speeduino_dashboard.ErrorHandler.Process.{
  Work, same_state, update_state, update_if, controller_states, on_tx_timeout, on_lost_arbitration,
  on_controller, on_protocol, on_transceiver, on_no_ack, on_bus_off, on_bus_error, on_restarted,
  start_frame, finish_frame, process_error_frame,
}

-- The state that a frame leaves, as one decision: a restart outranks a bus-off, which outranks the
-- controller's flags, of which the least severe wins.
unfoldable pub decided_state : CanErrors → ℕ → ErrorData → BusState → BusState
decided_state k id d old =
    if has id k.err_restarted
    then error_active
    else if has id k.err_busoff
    then bus_off
    else if has id k.err_crtl && has d.d1 k.crtl_active
    then error_active
    else if has id k.err_crtl && (has d.d1 k.crtl_tx_passive || has d.d1 k.crtl_rx_passive)
    then error_passive
    else if has id k.err_crtl && (has d.d1 k.crtl_tx_warning || has d.d1 k.crtl_rx_warning)
    then error_warning
    else old

pub same_state-eq : (s t : BusState) → same_state s t ≡ true → s ≡ t
unfolding same_state
same_state-eq s t h = ground arith

pub same_state-ne : (s t : BusState) → same_state s t ≡ false → s ≢ t
unfolding same_state
same_state-ne s t h e = ground arith

module _ (released : BusState → BusState → Handler → Handler)
    (keeps : (s t : BusState) (h : Handler) → (released s t h).current_state ≡ h.current_state)
    (k : CanErrors) where
  update_state-state : (s : BusState) (h : Handler) → (update_state released s h).current_state ≡ s
  unfolding update_state
  update_state-state s h = ground (
    arith,
    same_state-eq h.current_state s,
    keeps h.current_state s
        (record h { current_state = s; transitions = (h.current_state, s) ∷ h.transitions }),
  )

  update_if-state :
      (word mask : ℕ) (s : BusState) (h : Handler)
      → (update_if released word mask s h).current_state
        ≡ (if has word mask then s else h.current_state)
  unfolding update_if
  update_if-state word mask s h = ground (arith, update_state-state s h)

  on_controller-state :
      (id : ℕ) (d : ErrorData) (w : Work)
      → (on_controller released k id d w).0.current_state ≡ (
          if has id k.err_crtl
          then (controller_states released k d.d1 w.0).current_state
          else w.0.current_state)
  unfolding on_controller
  on_controller-state id d w = ground arith

  on_tx_timeout-state :
      (id : ℕ) (w : Work) → (on_tx_timeout released k id w).0.current_state ≡ w.0.current_state
  unfolding on_tx_timeout
  on_tx_timeout-state id w = ground arith

  on_lost_arbitration-state :
      (id : ℕ) (d : ErrorData) (w : Work)
      → (on_lost_arbitration released k id d w).0.current_state ≡ w.0.current_state
  unfolding on_lost_arbitration
  on_lost_arbitration-state id d w = ground arith

  on_protocol-state :
      (id : ℕ) (d : ErrorData) (w : Work)
      → (on_protocol released k id d w).0.current_state ≡ w.0.current_state
  unfolding on_protocol
  on_protocol-state id d w = ground arith

  on_transceiver-state :
      (id : ℕ) (w : Work) → (on_transceiver released k id w).0.current_state ≡ w.0.current_state
  unfolding on_transceiver
  on_transceiver-state id w = ground arith

  on_no_ack-state :
      (id : ℕ) (w : Work) → (on_no_ack released k id w).0.current_state ≡ w.0.current_state
  unfolding on_no_ack
  on_no_ack-state id w = ground arith

  on_bus_error-state :
      (id : ℕ) (w : Work) → (on_bus_error released k id w).0.current_state ≡ w.0.current_state
  unfolding on_bus_error
  on_bus_error-state id w = ground arith

  finish_frame-state :
      (d : ErrorData) (w : Work) → (finish_frame released k d w).current_state ≡ w.0.current_state
  unfolding finish_frame
  finish_frame-state d w = ground arith

  start_frame-state :
      (now : ℕ) (h : Handler) → (start_frame released k now h).0.current_state ≡ h.current_state
  unfolding start_frame
  start_frame-state now h = refl

  on_bus_off-state :
      (now id : ℕ) (w : Work)
      → (on_bus_off released k now id w).0.current_state
        ≡ (if has id k.err_busoff then bus_off else w.0.current_state)
  unfolding on_bus_off
  on_bus_off-state now id w = grind (arith, update_state-state)

  on_restarted-state :
      (now id : ℕ) (w : Work)
      → (on_restarted released k now id w).0.current_state
        ≡ (if has id k.err_restarted then error_active else w.0.current_state)
  unfolding on_restarted
  on_restarted-state now id w = grind (arith, update_state-state)

  controller_states-state :
      (status : ℕ) (h : Handler)
      → (controller_states released k status h).current_state ≡ (
          if has status k.crtl_active
          then error_active
          else if has status k.crtl_tx_passive || has status k.crtl_rx_passive
          then error_passive
          else if has status k.crtl_tx_warning || has status k.crtl_rx_warning
          then error_warning
          else h.current_state)
  unfolding controller_states
  controller_states-state status h = simp update_if-state (ground arith)

  -- As long as the callback and the other threads leave the bus state alone while the mutex is free:
  -- a frame that reports a restart leaves the bus error-active; else one that reports bus-off leaves
  -- it bus-off; else one that reports the controller's status leaves it active, passive or warning,
  -- by the first of these that the status names; and any other frame leaves the state as it was.
  pub process_error_frame-state :
      (now id : ℕ) (d : ErrorData) (h : Handler)
      → (process_error_frame released k now id d h).current_state
        ≡ decided_state k id d h.current_state
  unfolding process_error_frame decided_state
  process_error_frame-state now id d h =
      simp
        (
          finish_frame-state, on_restarted-state, on_bus_error-state, on_bus_off-state,
          on_no_ack-state, on_transceiver-state, on_protocol-state, on_controller-state,
          controller_states-state, on_lost_arbitration-state, on_tx_timeout-state,
          start_frame-state,
        )
        (ground arith)
