-- ===== src/Parser/Engine.antt =====
-- The engine data: `updateEngineData` of src/can_service/src/can_parser.cpp and `EngineData` of
-- src/common/include/common/zmq_messages.hpp.
use rpi_speeduino_dashboard.Common.{
  ℕ, ◌+◌, ◌*◌, ◌/◌, Bool, ◌&&◌, ◌||◌, Option, none, some, String, if◌then◌else◌, ltb,
}
use rpi_speeduino_dashboard.Common.Maps.{is_some}
use rpi_speeduino_dashboard.Common.Int.{
  ℤ, pos, negsuc, Ratio, pos_part, neg_part, ltb_ℤ, sub_ℕ, scale_ℤ,
}

pub record EngineData : Type 0 where
  pub timestamp_ms : ℕ
  pub rpm : ℕ
  pub coolant_temp : ℤ
  pub intake_temp : ℤ
  pub tps : ℕ
  pub map_kpa : ℕ
  pub lambda : ℕ
  pub ignition_advance : ℤ
  pub injector_duty : ℕ
  pub gear : ℕ
  pub vehicle_speed : ℕ
  pub fuel_pressure : ℕ
  pub oil_pressure : ℕ
  pub boost_target : ℕ
  pub baro : ℕ
  pub oil_temp : ℤ
  pub fuel_temp : ℤ
  pub battery_voltage : ℕ
  pub fuel_consumption : ℕ
  pub fuel_load : ℕ
  pub pw1 : ℕ
  pub pw2 : ℕ
  pub pw3 : ℕ
  pub pw4 : ℕ
  pub vvt_intake : ℤ
  pub vvt_exhaust : ℤ
  pub torque_indexed : ℕ
  pub torque_indicated : ℕ
  pub flags : ℕ

unfoldable pub new_engine_data : EngineData
new_engine_data = record {
  timestamp_ms = 0;
  rpm = 0;
  coolant_temp = pos 0;
  intake_temp = pos 0;
  tps = 0;
  map_kpa = 0;
  lambda = 0;
  ignition_advance = pos 0;
  injector_duty = 0;
  gear = 0;
  vehicle_speed = 0;
  fuel_pressure = 0;
  oil_pressure = 0;
  boost_target = 0;
  baro = 0;
  oil_temp = pos 0;
  fuel_temp = pos 0;
  battery_voltage = 0;
  fuel_consumption = 0;
  fuel_load = 0;
  pw1 = 0;
  pw2 = 0;
  pw3 = 0;
  pw4 = 0;
  vvt_intake = pos 0;
  vvt_exhaust = pos 0;
  torque_indexed = 0;
  torque_indicated = 0;
  flags = 0;
}

-- `val * n`
abbrev pub times : ℕ → Ratio → Ratio
times n r = record { num = scale_ℤ n r.num; den = r.den }

-- A clamp to the numbers up to `max`; what lies between is cut to a whole number.
unfoldable pub clamp_unsigned : ℕ → Ratio → ℕ
clamp_unsigned max r =
    if ltb_ℤ r.num (pos 0)
    then 0
    else if ltb_ℤ (pos (max * r.den)) r.num
    then max
    else pos_part r.num / r.den

-- A clamp to the numbers from -(max + 1) to max; what lies between is cut towards zero.
unfoldable pub clamp_signed : ℕ → Ratio → ℤ
clamp_signed max r =
    if ltb ((max + 1) * r.den) (neg_part r.num)
    then negsuc max
    else if ltb_ℤ (pos (max * r.den)) r.num
    then pos max
    else sub_ℕ (pos_part r.num / r.den) (neg_part r.num / r.den)

abbrev pub clamp_u16 : Ratio → ℕ
clamp_u16 r = clamp_unsigned 65535 r

abbrev pub clamp_u8 : Ratio → ℕ
clamp_u8 r = clamp_unsigned 255 r

abbrev pub clamp_i16 : Ratio → ℤ
clamp_i16 r = clamp_signed 32767 r

abbrev pub clamp_i8 : Ratio → ℤ
clamp_i8 r = clamp_signed 127 r

-- val > 0.5
abbrev pub is_set : Ratio → Bool
is_set r = ltb_ℤ (pos r.den) (scale_ℤ 2 r.num)

abbrev bit : Bool → ℕ → ℕ
bit b mask = if b then mask else 0

abbrev pub value_or_zero : Option Ratio → Ratio
value_or_zero none = record { num = pos 0; den = 1 }
value_or_zero (some r) = r

-- `lookup` gives the value of a signal that is there and valid.
module _ (lookup : String → Option Ratio) where
  unfoldable pub get_value : String → Ratio
  get_value name = value_or_zero (lookup name)

  unfoldable pub has_value : String → Bool
  has_value name = is_some (lookup name)

  unfoldable pub is_active : String → Bool
  is_active name = has_value name && is_set (get_value name)

  -- The flags are distinct bits, so each `|=` adds.
  unfoldable pub flags_of : EngineData → ℕ
  flags_of d =
      0x0004
      + bit (ltb 0 d.rpm) 0x0008
      + bit (ltb_ℤ (pos 105) d.coolant_temp || is_set (get_value "overheat_flag")) 0x0002
      + bit (is_set (get_value "cel_flag") || is_set (get_value "check_engine")) 0x0001
      + bit (is_set (get_value "clutch_flag") || is_set (get_value "clutch_switch")) 0x0010
      + bit (is_set (get_value "brake_flag") || is_set (get_value "brake_switch")) 0x0020
      + bit (is_set (get_value "cruise_flag") || is_set (get_value "cruise_active")) 0x0040
      + bit (is_active "launch_soft") 0x0100
      + bit (is_active "launch_hard") 0x0200
      + bit (is_active "flat_shift_active") 0x0400
      + bit (is_active "rev_limit_active") 0x0800
      + bit (ltb 1000 d.rpm && ltb d.oil_pressure 100) 0x1000
      + bit (ltb 0 d.rpm && (ltb 0 d.fuel_pressure && ltb d.fuel_pressure 200)) 0x2000

  unfoldable pub measured : ℕ → EngineData
  measured now = record {
    timestamp_ms = now;
    rpm = clamp_u16 (get_value "rpm");
    coolant_temp = clamp_i8 (get_value "coolant_temp");
    intake_temp = clamp_i8 (get_value "intake_temp");
    tps = clamp_u8 (get_value "tps");
    map_kpa = clamp_u16 (times 10 (get_value "map"));
    lambda = clamp_u16 (times 1000 (get_value "lambda1"));
    ignition_advance = clamp_i16 (times 10 (get_value "ignition_advance"));
    injector_duty = clamp_u8 (get_value "injector_duty");
    gear = clamp_u8 (get_value "gear");
    vehicle_speed = clamp_u16 (times 10 (get_value "vehicle_speed"));
    fuel_pressure = clamp_u16 (get_value "fuel_pressure");
    oil_pressure = clamp_u16 (get_value "oil_pressure");
    boost_target = clamp_u16 (times 10 (get_value "boost_target"));
    baro = clamp_u16 (times 10 (get_value "baro"));
    oil_temp = clamp_i8 (get_value "oil_temp");
    fuel_temp = clamp_i8 (get_value "fuel_temp");
    battery_voltage = clamp_u16 (times 1000 (get_value "battery_voltage"));
    fuel_consumption = clamp_u16 (times 100 (get_value "fuel_consumption"));
    fuel_load = clamp_u8 (get_value "fuel_load");
    pw1 = clamp_u16 (get_value "pw1");
    pw2 = clamp_u16 (get_value "pw2");
    pw3 = clamp_u16 (get_value "pw3");
    pw4 = clamp_u16 (get_value "pw4");
    vvt_intake = clamp_i16 (times 10 (get_value "vvt_intake"));
    vvt_exhaust = clamp_i16 (times 10 (get_value "vvt_exhaust"));
    torque_indexed = clamp_u8 (get_value "torque_indexed");
    torque_indicated = clamp_u8 (get_value "torque_indicated");
    flags = 0;
  }

  unfoldable pub update_engine_data : ℕ → EngineData
  update_engine_data now = let d = measured now in record d { flags = flags_of d }
