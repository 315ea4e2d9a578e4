-- ===== src/ErrorHandler/Events.antt =====
-- The event that an error frame hands to the error callback.
use rpi_speeduino_dashboard.Common.{ℕ, ◌≡◌, ◌∙◌, ap, List, Bool, ◌∷◌, has, arith, if◌then◌else◌}
use rpi_speeduino_dashboard.ErrorHandler.Text.{CanErrors, parse_protocol_error}
use rpi_speeduino_dashboard.ErrorHandler.State.{
  BusState, ErrorType, no_error, tx_timeout, arbitration_lost, controller_error, protocol_violation,
  transceiver_error, no_ack, went_bus_off, bus_error, controller_restarted, ErrorEvent, Handler,
  ErrorData,
}
use rpi_speeduino_dashboard.ErrorHandler.Process.{
  Work, on_tx_timeout, on_lost_arbitration, on_controller, on_protocol, on_transceiver, on_no_ack,
  on_bus_off, on_bus_error, on_restarted, start_frame, finish_frame, process_error_frame,
}
use rpi_speeduino_dashboard.ErrorHandler.Callbacks.{
  KeepsCallbacks, before_finish, before_finish-events, before_finish-has_error_callback,
}
use rpi_speeduino_dashboard.ErrorHandler.Transitions.{decided_state, process_error_frame-state}

-- The type of the event: of all that a frame reports, what the code tests last.
unfoldable pub decided_type : CanErrors → ℕ → ErrorType
decided_type k id =
    if has id k.err_restarted
    then controller_restarted
    else if has id k.err_buserror
    then bus_error
    else if has id k.err_busoff
    then went_bus_off
    else if has id k.err_ack
    then no_ack
    else if has id k.err_trx
    then transceiver_error
    else if has id k.err_prot
    then protocol_violation
    else if has id k.err_crtl
    then controller_error
    else if has id k.err_lostarb
    then arbitration_lost
    else if has id k.err_tx_timeout
    then tx_timeout
    else no_error

-- The event of a frame that leaves the bus in a state.
unfoldable pub decided_event : CanErrors → ℕ → ℕ → ErrorData → BusState → ErrorEvent
decided_event k now id d state = record {
  type = decided_type k id;
  state = state;
  counters = record { tx_error_count = d.d6; rx_error_count = d.d7 };
  timestamp = now;
  arbitration_lost_bit = if has id k.err_lostarb then d.d0 else 0;
  protocol_error_location = if has id k.err_prot then d.d3 else 0;
  description = if has id k.err_prot then parse_protocol_error k d.d2 d.d3 else "";
}

module _ (released : BusState → BusState → Handler → Handler) (k : CanErrors) where
  on_tx_timeout-event :
      (id : ℕ) (w : Work)
      → (on_tx_timeout released k id w).1
        ≡ record (w.1) { type = if has id k.err_tx_timeout then tx_timeout else w.1.type }
  unfolding on_tx_timeout
  on_tx_timeout-event id w = ground arith

  on_lost_arbitration-event :
      (id : ℕ) (d : ErrorData) (w : Work)
      → (on_lost_arbitration released k id d w).1 ≡ record (w.1) {
        type = if has id k.err_lostarb then arbitration_lost else w.1.type;
        arbitration_lost_bit = if has id k.err_lostarb then d.d0 else w.1.arbitration_lost_bit;
      }
  unfolding on_lost_arbitration
  on_lost_arbitration-event id d w = ground arith

  on_controller-event :
      (id : ℕ) (d : ErrorData) (w : Work)
      → (on_controller released k id d w).1
        ≡ record (w.1) { type = if has id k.err_crtl then controller_error else w.1.type }
  unfolding on_controller
  on_controller-event id d w = ground arith

  on_protocol-event :
      (id : ℕ) (d : ErrorData) (w : Work)
      → (on_protocol released k id d w).1 ≡ record (w.1) {
        type = if has id k.err_prot then protocol_violation else w.1.type;
        protocol_error_location = if has id k.err_prot then d.d3 else w.1.protocol_error_location;
        description =
            if has id k.err_prot then parse_protocol_error k d.d2 d.d3 else w.1.description;
      }
  unfolding on_protocol
  on_protocol-event id d w = ground arith

  on_transceiver-event :
      (id : ℕ) (w : Work)
      → (on_transceiver released k id w).1
        ≡ record (w.1) { type = if has id k.err_trx then transceiver_error else w.1.type }
  unfolding on_transceiver
  on_transceiver-event id w = ground arith

  on_no_ack-event :
      (id : ℕ) (w : Work)
      → (on_no_ack released k id w).1
        ≡ record (w.1) { type = if has id k.err_ack then no_ack else w.1.type }
  unfolding on_no_ack
  on_no_ack-event id w = ground arith

  on_bus_off-event :
      (now id : ℕ) (w : Work)
      → (on_bus_off released k now id w).1
        ≡ record (w.1) { type = if has id k.err_busoff then went_bus_off else w.1.type }
  unfolding on_bus_off
  on_bus_off-event now id w = ground arith

  on_bus_error-event :
      (id : ℕ) (w : Work)
      → (on_bus_error released k id w).1
        ≡ record (w.1) { type = if has id k.err_buserror then bus_error else w.1.type }
  unfolding on_bus_error
  on_bus_error-event id w = ground arith

  on_restarted-event :
      (now id : ℕ) (w : Work)
      → (on_restarted released k now id w).1
        ≡ record (w.1) { type = if has id k.err_restarted then controller_restarted else w.1.type }
  unfolding on_restarted
  on_restarted-event now id w = ground arith

  before_finish-event :
      (now id : ℕ) (d : ErrorData) (h : Handler) (s : BusState)
      → record ((before_finish released k now id d h).1) {
        state = s;
        counters = record { tx_error_count = d.d6; rx_error_count = d.d7 };
      }
        ≡ decided_event k now id d s
  unfolding before_finish decided_event decided_type start_frame
  before_finish-event now id d h s = simp (
    on_restarted-event, on_bus_error-event, on_bus_off-event, on_no_ack-event, on_transceiver-event,
    on_protocol-event, on_controller-event, on_lost_arbitration-event, on_tx_timeout-event,
  )

  finish_frame-events :
      (d : ErrorData) (w : Work)
      → (finish_frame released k d w).events ≡ (
          if w.0.has_error_callback
          then record (w.1) {
            state = (finish_frame released k d w).current_state;
            counters = record { tx_error_count = d.d6; rx_error_count = d.d7 };
          }
            ∷ w.0.events
          else w.0.events)
  unfolding finish_frame
  finish_frame-events d w = ground arith

  finish_frame-sends :
      (d : ErrorData) (w : Work) (e : ErrorEvent) (is_set : Bool) (before : List ErrorEvent)
      → record (w.1) {
        state = (finish_frame released k d w).current_state;
        counters = record { tx_error_count = d.d6; rx_error_count = d.d7 };
      }
        ≡ e
      → w.0.has_error_callback ≡ is_set
      → w.0.events ≡ before
      → (finish_frame released k d w).events ≡ (if is_set then e ∷ before else before)
  finish_frame-sends d w e is_set before he hs hb = finish_frame-events d w ∙ ap₃ he hs hb
    where
      ap₃ :
          {e e' : ErrorEvent} {s s' : Bool} {b b' : List ErrorEvent}
          → e ≡ e'
          → s ≡ s'
          → b ≡ b'
          → (if s then e ∷ b else b) ≡ (if s' then e' ∷ b' else b')
      ap₃ p q r = λ i. if q i then p i ∷ r i else r i

  -- A frame hands exactly one event to the error callback, if there is one: its type is the last
  -- kind that the frame reports, its state is the one that the frame leaves, its counters are the
  -- frame's last two bytes, and its text takes byte 2 for the location and byte 3 for the type of
  -- a protocol error, while its location field is byte 3.
  pub process_error_frame-events :
      (keeps : KeepsCallbacks released) (now id : ℕ) (d : ErrorData) (h : Handler)
      → (process_error_frame released k now id d h).events ≡ (
          if h.has_error_callback
          then decided_event k now id d (decided_state k id d h.current_state) ∷ h.events
          else h.events)
  unfolding process_error_frame before_finish
  process_error_frame-events keeps now id d h =
      finish_frame-sends d (before_finish released k now id d h) _ _ _
        (before_finish-event now id d h _
          ∙ ap (decided_event k now id d)
              (process_error_frame-state released keeps.state k now id d h))
        (before_finish-has_error_callback released keeps k now id d h)
        (before_finish-events released keeps k now id d h)
