-- ===== src/ErrorHandler/State.antt =====
-- The data of src/can_service/include/can_service/can_error_handler.hpp.
use rpi_speeduino_dashboard.Common.{ℕ, Bool, false, List, [], String}

pub data BusState : Type 0 where
  error_active error_warning error_passive bus_off : BusState

pub data ErrorType : Type 0 where
  no_error tx_timeout arbitration_lost controller_error protocol_violation : ErrorType
  transceiver_error no_ack went_bus_off bus_error controller_restarted : ErrorType

unfoldable pub can_bus_state_to_string : BusState → String
can_bus_state_to_string error_active = "ErrorActive"
can_bus_state_to_string error_warning = "ErrorWarning"
can_bus_state_to_string error_passive = "ErrorPassive"
can_bus_state_to_string bus_off = "BusOff"

pub can_error_type_to_string : ErrorType → String
can_error_type_to_string no_error = "None"
can_error_type_to_string tx_timeout = "TxTimeout"
can_error_type_to_string arbitration_lost = "ArbitrationLost"
can_error_type_to_string controller_error = "ControllerError"
can_error_type_to_string protocol_violation = "ProtocolViolation"
can_error_type_to_string transceiver_error = "TransceiverError"
can_error_type_to_string no_ack = "NoAck"
can_error_type_to_string went_bus_off = "BusOff"
can_error_type_to_string bus_error = "BusError"
can_error_type_to_string controller_restarted = "ControllerRestarted"

pub record Counters : Type 0 where
  pub tx_error_count : ℕ
  pub rx_error_count : ℕ

-- A `steady_clock::time_point`: `min()`, or nanoseconds since the clock's epoch.
pub data TimePoint : Type 0 where
  time_min : TimePoint
  at : ℕ → TimePoint

-- The counters are `uint64_t`.
pub record Stats : Type 0 where
  pub total_errors : ℕ
  pub tx_timeouts : ℕ
  pub arbitration_losses : ℕ
  pub protocol_errors : ℕ
  pub no_ack_errors : ℕ
  pub bus_off_events : ℕ
  pub controller_restarts : ℕ
  pub last_error : TimePoint
  pub last_bus_off : TimePoint
  pub last_recovery : TimePoint

pub record ErrorEvent : Type 0 where
  pub type : ErrorType
  pub state : BusState
  pub counters : Counters
  pub timestamp : ℕ
  pub arbitration_lost_bit : ℕ
  pub protocol_error_location : ℕ
  pub description : String

-- The members of `CanErrorHandler`. The callbacks are kept as flags that say whether they are set,
-- and the calls made to them as two lists, the latest first.
pub record Handler : Type 0 where
  pub current_state : BusState
  pub counters : Counters
  pub stats : Stats
  pub has_state_callback : Bool
  pub has_error_callback : Bool
  pub transitions : List (BusState × BusState)
  pub events : List ErrorEvent

-- The `data` of an error frame, eight bytes.
pub record ErrorData : Type 0 where
  pub d0 : ℕ
  pub d1 : ℕ
  pub d2 : ℕ
  pub d3 : ℕ
  pub d4 : ℕ
  pub d5 : ℕ
  pub d6 : ℕ
  pub d7 : ℕ

-- `CanErrorCounters{}` and `CanErrorStats{}`: a default time point is the epoch.
unfoldable pub zero_counters : Counters
zero_counters = record { tx_error_count = 0; rx_error_count = 0 }

unfoldable pub zero_stats : Stats
zero_stats = record {
  total_errors = 0;
  tx_timeouts = 0;
  arbitration_losses = 0;
  protocol_errors = 0;
  no_ack_errors = 0;
  bus_off_events = 0;
  controller_restarts = 0;
  last_error = at 0;
  last_bus_off = at 0;
  last_recovery = at 0;
}

-- The constructor.
unfoldable pub new_handler : Handler
unfolding zero_counters zero_stats
new_handler = record {
  current_state = error_active;
  counters = zero_counters;
  stats = record zero_stats {
    last_error = time_min;
    last_bus_off = time_min;
    last_recovery = time_min;
  };
  has_state_callback = false;
  has_error_callback = false;
  transitions = [];
  events = [];
}
