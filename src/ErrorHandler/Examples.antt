-- ===== src/ErrorHandler/Examples.antt =====
-- The error handler at concrete frames, with the constants of <linux/can/error.h>.
use rpi_speeduino_dashboard.Common.{
  ℕ, ◌≡◌, ◌⊎◌, refl, ◌||◌, true, false, some, List, [], ◌∷◌, arith, has, ◌&&◌, leb,
}
use rpi_speeduino_dashboard.ErrorHandler.Text.{CanErrors, parse_protocol_error}
use rpi_speeduino_dashboard.ErrorHandler.State.{
  BusState, error_active, error_passive, bus_off, ErrorData, Handler, new_handler, zero_stats,
}
use rpi_speeduino_dashboard.ErrorHandler.Process.{
  process_error_frame, set_bus_state_callback, set_error_event_callback, same_state, update_state,
  update_if, controller_states, on_tx_timeout, on_lost_arbitration, on_controller, on_protocol,
  on_transceiver, on_no_ack, on_bus_off, on_bus_error, on_restarted, start_frame, finish_frame,
}
use rpi_speeduino_dashboard.ErrorHandler.Transitions.{decided_state, process_error_frame-state}
use rpi_speeduino_dashboard.ErrorHandler.Totals.{Frame, frames_with, IsWords, run, run-counts}
use rpi_speeduino_dashboard.ErrorHandler.Events.{decided_event, process_error_frame-events}
use rpi_speeduino_dashboard.ErrorHandler.Changes.{IsTold, run-IsTold}
use rpi_speeduino_dashboard.ErrorHandler.Recovery.{System, Answers, is_accepted, trigger_recovery}
use rpi_speeduino_dashboard.ErrorHandler.Restarts.{trigger_recovery_lem}

abbrev linux : CanErrors
linux = record {
  err_tx_timeout = 0x1;
  err_lostarb = 0x2;
  err_crtl = 0x4;
  err_prot = 0x8;
  err_trx = 0x10;
  err_ack = 0x20;
  err_busoff = 0x40;
  err_buserror = 0x80;
  err_restarted = 0x100;
  crtl_rx_warning = 0x04;
  crtl_tx_warning = 0x08;
  crtl_rx_passive = 0x10;
  crtl_tx_passive = 0x20;
  crtl_active = 0x40;
  prot_bit = 0x01;
  prot_form = 0x02;
  prot_stuff = 0x04;
  prot_bit0 = 0x08;
  prot_bit1 = 0x10;
  prot_overload = 0x20;
  prot_active = 0x40;
  prot_tx = 0x80;
  loc_sof = 0x03;
  loc_id28_21 = 0x02;
  loc_id20_18 = 0x06;
  loc_srtr = 0x04;
  loc_ide = 0x05;
  loc_id17_13 = 0x07;
  loc_id12_05 = 0x0f;
  loc_id04_00 = 0x0e;
  loc_rtr = 0x0c;
  loc_res1 = 0x0d;
  loc_res0 = 0x09;
  loc_dlc = 0x0b;
  loc_data = 0x0a;
  loc_crc_seq = 0x08;
  loc_crc_del = 0x18;
  loc_ack = 0x19;
  loc_ack_del = 0x1b;
  loc_eof = 0x1a;
  loc_interm = 0x12;
}

-- A callback that leaves the handler as it is.
abbrev quiet : BusState → BusState → Handler → Handler
quiet s t h = h

-- A protocol error of type 2 (form) at location 8 (the CRC sequence), and the counters 130 and 7.
abbrev payload : ErrorData
payload = record { d0 = 0; d1 = 0x20; d2 = 2; d3 = 8; d4 = 0; d5 = 0; d6 = 130; d7 = 7 }

abbrev heard : Handler
heard = set_error_event_callback true (set_bus_state_callback true new_handler)

-- A controller error that reports the passive state.
passive_frame : (process_error_frame quiet linux 5 0x4 payload heard).current_state ≡ error_passive
unfolding process_error_frame set_error_event_callback set_bus_state_callback new_handler same_state
    update_state update_if controller_states on_tx_timeout on_lost_arbitration on_controller
    on_protocol on_transceiver on_no_ack on_bus_off on_bus_error on_restarted start_frame
    finish_frame has
passive_frame = refl

process_error_frame-state_example :
    (process_error_frame quiet linux 5 0x44 payload heard).current_state ≡ bus_off
unfolding decided_state has
process_error_frame-state_example =
    process_error_frame-state quiet (λ s t h. refl) linux 5 0x44 payload heard

abbrev two_frames : List Frame
two_frames =
    record { now = 5; id = 0x48; payload = payload }
    ∷ record { now = 9; id = 0x100; payload = payload }
    ∷ []

heard-IsWords : IsWords heard.stats
unfolding new_handler set_error_event_callback set_bus_state_callback zero_stats
heard-IsWords = omega arith

run-counts_example :
    let s = (run quiet linux two_frames heard).stats in
    (s.total_errors ≡ 2)
    × (s.tx_timeouts ≡ 0)
    × (s.arbitration_losses ≡ 0)
    × (s.protocol_errors ≡ 1)
    × (s.no_ack_errors ≡ 0)
    × (s.bus_off_events ≡ 1)
    × (s.controller_restarts ≡ 1)
unfolding new_handler set_error_event_callback set_bus_state_callback zero_stats frames_with has
run-counts_example =
    run-counts quiet (λ s t h. refl) linux two_frames heard (omega arith) heard-IsWords

process_error_frame-events_example :
    (process_error_frame quiet linux 5 0x48 payload heard).events
    ≡ decided_event linux 5 0x48 payload bus_off ∷ []
unfolding new_handler set_error_event_callback set_bus_state_callback decided_state has
process_error_frame-events_example =
    process_error_frame-events quiet linux
      (record { state = λ s t h. refl; events = λ s t h. refl; is_set = λ s t h. refl }) 5 0x48
      payload heard

-- The text of that error takes the two bytes for one another: byte 2, the type, is 2, and byte 3,
-- the location, is 8.
swapped_text : parse_protocol_error linux 2 8 ≡ "unable to send dominant bit at ID bits 28-21"
unfolding parse_protocol_error
swapped_text = refl

heard-IsTold : IsTold error_active heard
unfolding new_handler set_error_event_callback set_bus_state_callback
heard-IsTold = record { is_set = refl; linked = refl }

run-IsTold_example : IsTold error_active (run quiet linux two_frames heard)
run-IsTold_example =
    run-IsTold quiet (record { told = λ s t first h v. v }) linux error_active two_frames heard
      heard-IsTold

-- ASCII letters and digits, and names of sixteen bytes.
abbrev ascii : System
ascii = record {
  is_alpha = λ c. leb b'A' c && leb c b'Z' || (leb b'a' c && leb c b'z');
  is_digit = λ c. leb b'0' c && leb c b'9';
  if_name_size = 16;
  iff_up = 1;
}

abbrev can0 : List ℕ
can0 = b'c' ∷ b'a' ∷ b'n' ∷ b'0' ∷ []

injected_name : is_accepted ascii (b'c' ∷ b';' ∷ []) ≡ false
unfolding is_accepted
injected_name = refl

abbrev all_granted : Answers
all_granted = record { socket = true; index = true; flags = some 0x41; down = true; up = true }

trigger_recovery_lem_example :
    (is_accepted ascii can0 ≡ true) ⊎ ((trigger_recovery ascii can0 all_granted).1 ≡ [])
trigger_recovery_lem_example = (trigger_recovery_lem ascii can0 all_granted).1
