-- ===== src/ErrorHandler/Callbacks.antt =====
-- That the parts of `processErrorFrame` leave the sent events and the callback's flag alone.
use rpi_speeduino_dashboard.Common.{ℕ, ◌≡◌, ◌∷◌, arith}
use rpi_speeduino_dashboard.ErrorHandler.Text.{CanErrors}
use rpi_speeduino_dashboard.ErrorHandler.State.{BusState, Handler, ErrorData}
use rpi_speeduino_dashboard.ErrorHandler.Process.{
  Work, update_state, update_if, controller_states, on_tx_timeout, on_lost_arbitration,
  on_controller, on_protocol, on_transceiver, on_no_ack, on_bus_off, on_bus_error, on_restarted,
  start_frame,
}

-- What a callback must leave alone.
pub record KeepsCallbacks (released : BusState → BusState → Handler → Handler) : Type 0 where
  pub state : (s t : BusState) (h : Handler) → (released s t h).current_state ≡ h.current_state
  pub events : (s t : BusState) (h : Handler) → (released s t h).events ≡ h.events
  pub is_set :
      (s t : BusState) (h : Handler) → (released s t h).has_error_callback ≡ h.has_error_callback

module _ (released : BusState → BusState → Handler → Handler) (k : CanErrors) where
  -- A frame up to the extraction of the error counters.
  unfoldable pub before_finish : ℕ → ℕ → ErrorData → Handler → Work
  before_finish now id d h = on_restarted released k now id (
      on_bus_error released k id (
        on_bus_off released k now id (
          on_no_ack released k id (
            on_transceiver released k id (
              on_protocol released k id d (
                on_controller released k id d (
                  on_lost_arbitration released k id d
                    (on_tx_timeout released k id (start_frame released k now h)))))))))

module _ (released : BusState → BusState → Handler → Handler) (keeps : KeepsCallbacks released)
    (k : CanErrors) where
  update_state-events : (s : BusState) (h : Handler) → (update_state released s h).events ≡ h.events
  unfolding update_state
  update_state-events s h = ground (
    arith,
    keeps.events h.current_state s
        (record h { current_state = s; transitions = (h.current_state, s) ∷ h.transitions }),
  )

  update_if-events :
      (word mask : ℕ) (s : BusState) (h : Handler)
      → (update_if released word mask s h).events ≡ h.events
  unfolding update_if
  update_if-events word mask s h = ground (arith, update_state-events s h)

  controller_states-events :
      (status : ℕ) (h : Handler) → (controller_states released k status h).events ≡ h.events
  unfolding controller_states
  controller_states-events status h = simp update_if-events

  on_tx_timeout-events : (id : ℕ) (w : Work) → (on_tx_timeout released k id w).0.events ≡ w.0.events
  unfolding on_tx_timeout
  on_tx_timeout-events id w = ground arith

  on_lost_arbitration-events :
      (id : ℕ) (d : ErrorData) (w : Work)
      → (on_lost_arbitration released k id d w).0.events ≡ w.0.events
  unfolding on_lost_arbitration
  on_lost_arbitration-events id d w = ground arith

  on_controller-events :
      (id : ℕ) (d : ErrorData) (w : Work) → (on_controller released k id d w).0.events ≡ w.0.events
  unfolding on_controller
  on_controller-events id d w = ground (arith, controller_states-events d.d1 w.0)

  on_protocol-events :
      (id : ℕ) (d : ErrorData) (w : Work) → (on_protocol released k id d w).0.events ≡ w.0.events
  unfolding on_protocol
  on_protocol-events id d w = ground arith

  on_transceiver-events :
      (id : ℕ) (w : Work) → (on_transceiver released k id w).0.events ≡ w.0.events
  unfolding on_transceiver
  on_transceiver-events id w = ground arith

  on_no_ack-events : (id : ℕ) (w : Work) → (on_no_ack released k id w).0.events ≡ w.0.events
  unfolding on_no_ack
  on_no_ack-events id w = ground arith

  on_bus_off-events :
      (now id : ℕ) (w : Work) → (on_bus_off released k now id w).0.events ≡ w.0.events
  unfolding on_bus_off
  on_bus_off-events now id w = grind (arith, update_state-events)

  on_bus_error-events : (id : ℕ) (w : Work) → (on_bus_error released k id w).0.events ≡ w.0.events
  unfolding on_bus_error
  on_bus_error-events id w = ground arith

  on_restarted-events :
      (now id : ℕ) (w : Work) → (on_restarted released k now id w).0.events ≡ w.0.events
  unfolding on_restarted
  on_restarted-events now id w = grind (arith, update_state-events)

  update_state-has_error_callback :
      (s : BusState) (h : Handler)
      → (update_state released s h).has_error_callback ≡ h.has_error_callback
  unfolding update_state
  update_state-has_error_callback s h = ground (
    arith,
    keeps.is_set h.current_state s
        (record h { current_state = s; transitions = (h.current_state, s) ∷ h.transitions }),
  )

  update_if-has_error_callback :
      (word mask : ℕ) (s : BusState) (h : Handler)
      → (update_if released word mask s h).has_error_callback ≡ h.has_error_callback
  unfolding update_if
  update_if-has_error_callback word mask s h = ground (arith, update_state-has_error_callback s h)

  controller_states-has_error_callback :
      (status : ℕ) (h : Handler)
      → (controller_states released k status h).has_error_callback ≡ h.has_error_callback
  unfolding controller_states
  controller_states-has_error_callback status h = simp update_if-has_error_callback

  on_tx_timeout-has_error_callback :
      (id : ℕ) (w : Work)
      → (on_tx_timeout released k id w).0.has_error_callback ≡ w.0.has_error_callback
  unfolding on_tx_timeout
  on_tx_timeout-has_error_callback id w = ground arith

  on_lost_arbitration-has_error_callback :
      (id : ℕ) (d : ErrorData) (w : Work)
      → (on_lost_arbitration released k id d w).0.has_error_callback ≡ w.0.has_error_callback
  unfolding on_lost_arbitration
  on_lost_arbitration-has_error_callback id d w = ground arith

  on_controller-has_error_callback :
      (id : ℕ) (d : ErrorData) (w : Work)
      → (on_controller released k id d w).0.has_error_callback ≡ w.0.has_error_callback
  unfolding on_controller
  on_controller-has_error_callback id d w =
      ground (arith, controller_states-has_error_callback d.d1 w.0)

  on_protocol-has_error_callback :
      (id : ℕ) (d : ErrorData) (w : Work)
      → (on_protocol released k id d w).0.has_error_callback ≡ w.0.has_error_callback
  unfolding on_protocol
  on_protocol-has_error_callback id d w = ground arith

  on_transceiver-has_error_callback :
      (id : ℕ) (w : Work)
      → (on_transceiver released k id w).0.has_error_callback ≡ w.0.has_error_callback
  unfolding on_transceiver
  on_transceiver-has_error_callback id w = ground arith

  on_no_ack-has_error_callback :
      (id : ℕ) (w : Work)
      → (on_no_ack released k id w).0.has_error_callback ≡ w.0.has_error_callback
  unfolding on_no_ack
  on_no_ack-has_error_callback id w = ground arith

  on_bus_off-has_error_callback :
      (now id : ℕ) (w : Work)
      → (on_bus_off released k now id w).0.has_error_callback ≡ w.0.has_error_callback
  unfolding on_bus_off
  on_bus_off-has_error_callback now id w = grind (arith, update_state-has_error_callback)

  on_bus_error-has_error_callback :
      (id : ℕ) (w : Work)
      → (on_bus_error released k id w).0.has_error_callback ≡ w.0.has_error_callback
  unfolding on_bus_error
  on_bus_error-has_error_callback id w = ground arith

  on_restarted-has_error_callback :
      (now id : ℕ) (w : Work)
      → (on_restarted released k now id w).0.has_error_callback ≡ w.0.has_error_callback
  unfolding on_restarted
  on_restarted-has_error_callback now id w = grind (arith, update_state-has_error_callback)

  pub before_finish-events :
      (now id : ℕ) (d : ErrorData) (h : Handler)
      → (before_finish released k now id d h).0.events ≡ h.events
  unfolding before_finish start_frame
  before_finish-events now id d h = simp (
    on_restarted-events, on_bus_error-events, on_bus_off-events, on_no_ack-events,
    on_transceiver-events, on_protocol-events, on_controller-events, on_lost_arbitration-events,
    on_tx_timeout-events,
  )

  pub before_finish-has_error_callback :
      (now id : ℕ) (d : ErrorData) (h : Handler)
      → (before_finish released k now id d h).0.has_error_callback ≡ h.has_error_callback
  unfolding before_finish start_frame
  before_finish-has_error_callback now id d h = simp (
    on_restarted-has_error_callback, on_bus_error-has_error_callback, on_bus_off-has_error_callback,
    on_no_ack-has_error_callback, on_transceiver-has_error_callback, on_protocol-has_error_callback,
    on_controller-has_error_callback, on_lost_arbitration-has_error_callback,
    on_tx_timeout-has_error_callback,
  )
