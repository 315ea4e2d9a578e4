-- ===== src/ErrorHandler/Process.antt =====
-- The methods of `CanErrorHandler` in src/can_service/src/can_error_handler.cpp.
use rpi_speeduino_dashboard.Common.{
  ℕ, ◌+◌, ◌-◌, ◌/◌, Bool, true, false, not, Option, none, some, ◌∷◌, has, if◌then◌else◌, u64,
}
use rpi_speeduino_dashboard.ErrorHandler.Text.{CanErrors, parse_protocol_error}
use rpi_speeduino_dashboard.ErrorHandler.State.{
  BusState, error_active, error_warning, error_passive, bus_off, no_error, tx_timeout,
  arbitration_lost, controller_error, protocol_violation, transceiver_error, no_ack, went_bus_off,
  bus_error, controller_restarted, Counters, TimePoint, time_min, at, ErrorEvent, Handler,
  ErrorData, zero_counters, zero_stats,
}

unfoldable pub same_state : BusState → BusState → Bool
same_state error_active error_active = true
same_state error_warning error_warning = true
same_state error_passive error_passive = true
same_state bus_off bus_off = true
same_state _ _ = false

-- A handler with the event that is being filled in.
abbrev pub Work : Type 0
Work = Handler × ErrorEvent

-- `released old new h` is what the state callback and the other threads do to the members while
-- `updateState` has let go of the mutex. An exception of the callback ends there too.
module _ (released : BusState → BusState → Handler → Handler) where
  unfoldable pub update_state : BusState → Handler → Handler
  update_state new h =
      if same_state h.current_state new
      then h
      else (if h.has_state_callback
          then released h.current_state new (record h {
            current_state = new;
            transitions = (h.current_state, new) ∷ h.transitions;
          })
          else record h { current_state = new })

  -- `if (word & mask) updateState(state)`
  unfoldable pub update_if : ℕ → ℕ → BusState → Handler → Handler
  update_if word mask state h = if has word mask then update_state state h else h

  module _ (k : CanErrors) where
    unfoldable pub on_tx_timeout : ℕ → Work → Work
    on_tx_timeout id (h, e) =
        if has id k.err_tx_timeout
        then (
          record h { stats = record (h.stats) { tx_timeouts = u64 (h.stats.tx_timeouts + 1) } },
          record e { type = tx_timeout },
        )
        else (h, e)

    unfoldable pub on_lost_arbitration : ℕ → ErrorData → Work → Work
    on_lost_arbitration id d (h, e) =
        if has id k.err_lostarb
        then (
          record h {
            stats = record (h.stats) { arbitration_losses = u64 (h.stats.arbitration_losses + 1) };
          },
          record e { type = arbitration_lost; arbitration_lost_bit = d.d0 },
        )
        else (h, e)

    -- The controller's state in `data[1]`; the later tests win.
    unfoldable pub controller_states : ℕ → Handler → Handler
    controller_states status h = update_if status k.crtl_active error_active (
        update_if status k.crtl_tx_passive error_passive (
          update_if status k.crtl_rx_passive error_passive (
            update_if status k.crtl_tx_warning error_warning
              (update_if status k.crtl_rx_warning error_warning h))))

    unfoldable pub on_controller : ℕ → ErrorData → Work → Work
    on_controller id d (h, e) =
        if has id k.err_crtl
        then (controller_states d.d1 h, record e { type = controller_error })
        else (h, e)

    unfoldable pub on_protocol : ℕ → ErrorData → Work → Work
    on_protocol id d (h, e) =
        if has id k.err_prot
        then (
          record h {
            stats = record (h.stats) { protocol_errors = u64 (h.stats.protocol_errors + 1) };
          },
          record e {
            type = protocol_violation;
            protocol_error_location = d.d3;
            description = parse_protocol_error k d.d2 d.d3;
          },
        )
        else (h, e)

    unfoldable pub on_transceiver : ℕ → Work → Work
    on_transceiver id (h, e) =
        (h, if has id k.err_trx then record e { type = transceiver_error } else e)

    unfoldable pub on_no_ack : ℕ → Work → Work
    on_no_ack id (h, e) =
        if has id k.err_ack
        then (
          record h { stats = record (h.stats) { no_ack_errors = u64 (h.stats.no_ack_errors + 1) } },
          record e { type = no_ack },
        )
        else (h, e)

    unfoldable pub on_bus_off : ℕ → ℕ → Work → Work
    on_bus_off now id (h, e) =
        if has id k.err_busoff
        then (
          update_state bus_off (record h {
            stats = record (h.stats) {
              bus_off_events = u64 (h.stats.bus_off_events + 1);
              last_bus_off = at now;
            };
          }),
          record e { type = went_bus_off },
        )
        else (h, e)

    unfoldable pub on_bus_error : ℕ → Work → Work
    on_bus_error id (h, e) = (h, if has id k.err_buserror then record e { type = bus_error } else e)

    unfoldable pub on_restarted : ℕ → ℕ → Work → Work
    on_restarted now id (h, e) =
        if has id k.err_restarted
        then (
          update_state error_active (record h {
            stats = record (h.stats) {
              controller_restarts = u64 (h.stats.controller_restarts + 1);
              last_recovery = at now;
            };
          }),
          record e { type = controller_restarted },
        )
        else (h, e)

    -- The end of `processErrorFrame`: the error counters, and the callback on the finished event.
    unfoldable pub finish_frame : ErrorData → Work → Handler
    finish_frame d (h, e) =
        let counted : Counters = record { tx_error_count = d.d6; rx_error_count = d.d7 } in
        let event : ErrorEvent = record e { state = h.current_state; counters = counted } in
        if h.has_error_callback
        then record h { counters = counted; events = event ∷ h.events }
        else record h { counters = counted }

    -- Its beginning: the time, the total, and an empty event.
    unfoldable pub start_frame : ℕ → Handler → Work
    unfolding zero_counters
    start_frame now h = (
      record h {
        stats = record (h.stats) {
          last_error = at now;
          total_errors = u64 (h.stats.total_errors + 1);
        };
      },
      record {
        type = no_error;
        state = error_active;
        counters = zero_counters;
        timestamp = now;
        arbitration_lost_bit = 0;
        protocol_error_location = 0;
        description = "";
      },
    )

    -- `now` is the time that the method reads, in nanoseconds.
    unfoldable pub process_error_frame : ℕ → ℕ → ErrorData → Handler → Handler
    process_error_frame now id d h = finish_frame d (
        on_restarted now id (
          on_bus_error id (
            on_bus_off now id (
              on_no_ack id (
                on_transceiver id (
                  on_protocol id d (
                    on_controller id d
                      (on_lost_arbitration id d (on_tx_timeout id (start_frame now h))))))))))

unfoldable pub has_error : Handler → Bool
has_error h = not (same_state h.current_state error_active)

unfoldable pub is_operational : Handler → Bool
is_operational h = not (same_state h.current_state bus_off)

unfoldable pub set_bus_state_callback : Bool → Handler → Handler
set_bus_state_callback is_set h = record h { has_state_callback = is_set }

unfoldable pub set_error_event_callback : Bool → Handler → Handler
set_error_event_callback is_set h = record h { has_error_callback = is_set }

unfoldable pub reset_stats : Handler → Handler
unfolding zero_stats zero_counters
reset_stats h = record h {
  stats = zero_stats;
  counters = zero_counters;
  current_state = error_active;
}

unfoldable pub record_error : ℕ → Handler → Handler
record_error now h = record h {
  stats = record (h.stats) { total_errors = u64 (h.stats.total_errors + 1); last_error = at now };
}

abbrev since : TimePoint → ℕ → Option ℕ
since time_min now = none
since (at t) now = some ((now - t) / 1000000)

-- In milliseconds; `none` is `milliseconds::max()`. The clock is steady, so `t ≤ now`.
unfoldable pub time_since_last_error : ℕ → Handler → Option ℕ
time_since_last_error now h = since h.stats.last_error now
