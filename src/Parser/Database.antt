-- ===== src/Parser/Database.antt =====
-- The signals of the protocols, src/can_service/src/signal_database.cpp.
use rpi_speeduino_dashboard.Common.{
  ℕ, Bool, true, false, List, [], ◌∷◌, String, str_eq, if◌then◌else◌,
}
use rpi_speeduino_dashboard.Common.Int.{Ratio, pos, negsuc}
use rpi_speeduino_dashboard.Parser.Extract.{CanSignalDef}

abbrev signal : String → ℕ → ℕ → ℕ → ℕ → Bool → Bool → Ratio → Ratio → CanSignalDef
signal name can_id start_byte start_bit length_bits is_big_endian is_signed scale offset = record {
  name = name;
  can_id = can_id;
  start_byte = start_byte;
  start_bit = start_bit;
  length_bits = length_bits;
  is_big_endian = is_big_endian;
  is_signed = is_signed;
  scale = scale;
  offset = offset;
}

unfoldable pub create_haltech_signals : List CanSignalDef
create_haltech_signals =
    signal "rpm" 0x360 0 0 16 true false (record { num = pos 1; den = 1 })
      (record { num = pos 0; den = 1 })
    ∷ signal "map" 0x360 2 0 16 true false (record { num = pos 1; den = 10 })
        (record { num = pos 0; den = 1 })
    ∷ signal "tps" 0x360 4 0 16 true false (record { num = pos 1; den = 10 })
        (record { num = pos 0; den = 1 })
    ∷ signal "fuel_pressure" 0x361 0 0 16 true false (record { num = pos 1; den = 10 })
        (record { num = negsuc 1012; den = 10 })
    ∷ signal "oil_pressure" 0x361 2 0 16 true false (record { num = pos 1; den = 10 })
        (record { num = negsuc 1012; den = 10 })
    ∷ signal "fuel_load" 0x361 4 0 16 true false (record { num = pos 1; den = 10 })
        (record { num = pos 0; den = 1 })
    ∷ signal "injector_duty" 0x362 0 0 16 true false (record { num = pos 1; den = 10 })
        (record { num = pos 0; den = 1 })
    ∷ signal "ignition_advance" 0x362 4 0 16 true true (record { num = pos 1; den = 10 })
        (record { num = pos 0; den = 1 })
    ∷ signal "pw1" 0x364 0 0 16 true false (record { num = pos 1; den = 1 })
        (record { num = pos 0; den = 1 })
    ∷ signal "pw2" 0x364 2 0 16 true false (record { num = pos 1; den = 1 })
        (record { num = pos 0; den = 1 })
    ∷ signal "pw3" 0x364 4 0 16 true false (record { num = pos 1; den = 1 })
        (record { num = pos 0; den = 1 })
    ∷ signal "pw4" 0x364 6 0 16 true false (record { num = pos 1; den = 1 })
        (record { num = pos 0; den = 1 })
    ∷ signal "lambda1" 0x368 0 0 16 true false (record { num = pos 1; den = 1000 })
        (record { num = pos 0; den = 1 })
    ∷ signal "lambda2" 0x368 2 0 16 true false (record { num = pos 1; den = 1000 })
        (record { num = pos 0; den = 1 })
    ∷ signal "vehicle_speed" 0x370 0 0 16 true false (record { num = pos 1; den = 10 })
        (record { num = pos 0; den = 1 })
    ∷ signal "gear" 0x370 3 0 8 true false (record { num = pos 1; den = 1 })
        (record { num = pos 0; den = 1 })
    ∷ signal "vvt_intake" 0x370 4 0 16 true true (record { num = pos 1; den = 10 })
        (record { num = pos 0; den = 1 })
    ∷ signal "vvt_exhaust" 0x370 6 0 16 true true (record { num = pos 1; den = 10 })
        (record { num = pos 0; den = 1 })
    ∷ signal "battery_voltage" 0x372 1 0 8 true false (record { num = pos 1; den = 10 })
        (record { num = pos 0; den = 1 })
    ∷ signal "boost_target" 0x372 4 0 16 true false (record { num = pos 1; den = 10 })
        (record { num = pos 0; den = 1 })
    ∷ signal "baro" 0x372 6 0 16 true false (record { num = pos 1; den = 10 })
        (record { num = pos 0; den = 1 })
    ∷ signal "coolant_temp" 0x3e0 0 0 16 true false (record { num = pos 1; den = 10 })
        (record { num = negsuc 27314; den = 100 })
    ∷ signal "intake_temp" 0x3e0 2 0 16 true false (record { num = pos 1; den = 10 })
        (record { num = negsuc 27314; den = 100 })
    ∷ signal "fuel_temp" 0x3e0 4 0 16 true false (record { num = pos 1; den = 10 })
        (record { num = negsuc 27314; den = 100 })
    ∷ []

unfoldable pub create_bmw_signals : List CanSignalDef
create_bmw_signals =
    signal "rpm" 0x316 2 0 16 false false (record { num = pos 15625; den = 100000 })
      (record { num = pos 0; den = 1 })
    ∷ signal "torque_indexed" 0x316 1 0 8 false false (record { num = pos 1; den = 1 })
        (record { num = pos 0; den = 1 })
    ∷ signal "torque_indicated" 0x316 4 0 8 false false (record { num = pos 1; den = 1 })
        (record { num = pos 0; den = 1 })
    ∷ signal "torque_loss" 0x316 5 0 8 false false (record { num = pos 1; den = 1 })
        (record { num = pos 0; den = 1 })
    ∷ signal "engine_running" 0x316 0 0 1 false false (record { num = pos 1; den = 1 })
        (record { num = pos 0; den = 1 })
    ∷ signal "motor_status_ok" 0x316 0 2 1 false false (record { num = pos 1; den = 1 })
        (record { num = pos 0; den = 1 })
    ∷ signal "coolant_temp" 0x329 1 0 8 false false (record { num = pos 75; den = 100 })
        (record { num = negsuc 47; den = 1 })
    ∷ signal "baro" 0x329 2 0 8 false false (record { num = pos 1; den = 1 })
        (record { num = pos 0; den = 1 })
    ∷ signal "tps" 0x329 5 0 8 false false (record { num = pos 392157; den = 1000000 })
        (record { num = pos 0; den = 1 })
    ∷ signal "motor_running_329" 0x329 3 3 1 false false (record { num = pos 1; den = 1 })
        (record { num = pos 0; den = 1 })
    ∷ signal "brake_pressed" 0x329 6 0 1 false false (record { num = pos 1; den = 1 })
        (record { num = pos 0; den = 1 })
    ∷ signal "cel_status" 0x545 0 1 1 false false (record { num = pos 1; den = 1 })
        (record { num = pos 0; den = 1 })
    ∷ signal "cruise_active" 0x545 0 4 1 false false (record { num = pos 1; den = 1 })
        (record { num = pos 0; den = 1 })
    ∷ signal "fuel_consumption" 0x545 1 0 16 false false (record { num = pos 1; den = 100 })
        (record { num = pos 0; den = 1 })
    ∷ signal "overheat_warning" 0x545 3 3 1 false false (record { num = pos 1; den = 1 })
        (record { num = pos 0; den = 1 })
    ∷ signal "oil_temp" 0x545 4 0 8 false false (record { num = pos 75; den = 100 })
        (record { num = negsuc 47; den = 1 })
    ∷ []

unfoldable pub create_vag_signals : List CanSignalDef
create_vag_signals =
    signal "rpm" 0x280 2 0 16 false false (record { num = pos 25; den = 100 })
      (record { num = pos 0; den = 1 })
    ∷ signal "vehicle_speed" 0x5a0 1 0 16 false false (record { num = pos 75188; den = 10000000 })
        (record { num = pos 0; den = 1 })
    ∷ []

unfoldable pub get_signals_for_protocol : String → List CanSignalDef
get_signals_for_protocol protocol =
    if str_eq protocol "haltech"
    then create_haltech_signals
    else if str_eq protocol "bmw"
    then create_bmw_signals
    else if str_eq protocol "vag"
    then create_vag_signals
    else create_haltech_signals
