-- ===== src/Parser/Examples.antt =====
-- The decoding of signals at concrete frames.
use rpi_speeduino_dashboard.Common.{
  ◌&&◌, ◌++◌, All, ◌||◌, List, str_eq, if◌then◌else◌, if-elim, ◌<◌, Option, String, ◌/◌, ◌%◌, ◌^◌,
  ◌≡◌, refl, true, false, none, some, [], ◌∷◌, arith,
}
use mathlib.Core.List.{reverse}
use mathlib.Core.List.Permᴰ
use rpi_speeduino_dashboard.Common.Int.{Ratio, pos, negsuc}
use rpi_speeduino_dashboard.Bus.{CanFrame, IsPayload, make_frame}
use rpi_speeduino_dashboard.Common.Int.{Ratio, pos, add_ℤ, mul_ℤ, scale_ℤ}
use rpi_speeduino_dashboard.Parser.Engine.{update_engine_data, is_set, get_value, value_or_zero}
use rpi_speeduino_dashboard.Parser.Values.{
  value_of, Parser, new_parser, load_signals, parse_frame, get_signal_value, read_signal,
  apply_scaling, scaled,
}
use rpi_speeduino_dashboard.Parser.Warnings.{IsInRange, one, update_engine_data-IsInRange}
use rpi_speeduino_dashboard.Parser.Thresholds.{reaches, is_below, update_engine_data-warnings}
use rpi_speeduino_dashboard.Parser.Database.{get_signals_for_protocol}
use rpi_speeduino_dashboard.Parser.Protocols.{
  Arranges, parse_frames, parse_frame-protocol, parse_frames-bmw,
}
use rpi_speeduino_dashboard.Parser.Store.{IsRead, IsOther, parse_frame-get_signal_value}
use rpi_speeduino_dashboard.Parser.Extract.{
  CanSignalDef, push, big_loop, little_loop, mask_raw, load_bytes, extract_raw_value, signed_value,
}
use rpi_speeduino_dashboard.Parser.Numbers.{number_of, extract_raw_value-number}
use rpi_speeduino_dashboard.Parser.Ranges.{
  Fits, pattern, extract_raw_value-Fits, signed_value-pattern,
}

abbrev frame : CanFrame
frame = make_frame 0x360 8 (0x0d ∷ 0xac ∷ 0x03 ∷ 0xf5 ∷ 0 ∷ 0xff ∷ 0x12 ∷ 0x34 ∷ [])

frame-IsPayload : IsPayload frame.bytes
unfolding make_frame
frame-IsPayload = record { count = refl; small = ground arith }

-- The engine speed, big-endian.
abbrev rpm : CanSignalDef
rpm = record {
  name = "rpm";
  can_id = 0x360;
  start_byte = 0;
  start_bit = 0;
  length_bits = 16;
  is_big_endian = true;
  is_signed = false;
  scale = record { num = pos 1; den = 1 };
  offset = record { num = pos 0; den = 1 };
}

abbrev coolant : CanSignalDef
coolant = record rpm {
  name = "coolant_temp";
  length_bits = 12;
  is_big_endian = false;
  is_signed = true;
}

rpm_value : extract_raw_value frame rpm ≡ some 3500
unfolding extract_raw_value load_bytes big_loop push mask_raw make_frame
rpm_value = refl

-- A signal of 64 bits is cut by a shift that has no defined result.
wide_value : extract_raw_value frame (record rpm { length_bits = 64 }) ≡ none
unfolding extract_raw_value load_bytes big_loop push mask_raw make_frame
wide_value = refl

-- A frame that reports more than eight bytes is read past the end of its array.
overrun : extract_raw_value (record frame { dlc = 12 }) (record rpm { start_byte = 7 }) ≡ none
unfolding extract_raw_value load_bytes big_loop push mask_raw make_frame
overrun = refl

-- A signal of 16 bits that starts at bit 4 spans three bytes, of which two are read.
cut_value :
    extract_raw_value frame (record rpm { is_big_endian = false; start_bit = 4 }) ≡ some 0x0ac0
unfolding extract_raw_value load_bytes little_loop push mask_raw make_frame
cut_value = refl

extract_raw_value-number_example :
    extract_raw_value frame coolant
    ≡ some (number_of frame coolant / 2 ^ coolant.start_bit % 2 ^ coolant.length_bits)
unfolding make_frame
extract_raw_value-number_example =
    extract_raw_value-number frame coolant frame-IsPayload (omega arith) (omega arith) (omega arith)
      (omega arith) (omega arith)

extract_raw_value-Fits_example : Fits 12 (extract_raw_value frame coolant)
unfolding make_frame
extract_raw_value-Fits_example =
    extract_raw_value-Fits frame coolant refl (omega arith) (omega arith)

signed_value-pattern_example : signed_value (pattern 12 (negsuc 39)) coolant ≡ some (negsuc 39)
signed_value-pattern_example =
    signed_value-pattern coolant (negsuc 39) refl (omega arith) (omega arith) (omega arith)
      (omega arith)

-- A multimap that goes through its entries backwards.
reverse-Arranges : Arranges reverse
reverse-Arranges ss = Permᴰ.symm (Permᴰ.reverse ss)

-- Two signals of one frame.
abbrev speed : CanSignalDef
speed = record rpm { can_id = 0x360 }

abbrev loaded : Parser
loaded =
    load_signals reverse (speed ∷ record speed { name = "oil_temp"; start_byte = 2 } ∷ [])
      new_parser

loaded-IsRead : All (IsRead frame) loaded.signals
unfolding load_signals read_signal apply_scaling signed_value scaled extract_raw_value load_bytes
    big_loop push mask_raw make_frame add_ℤ mul_ℤ scale_ℤ
loaded-IsRead = ((λ same. (_, refl)), ((λ same. (_, refl)), tt))

parse_frame-get_signal_value_example :
    (q : Parser) × (parse_frame 7000 frame loaded ≡ some q)
    × ((pre post : List CanSignalDef) (s : CanSignalDef)
        → loaded.signals ≡ pre ++ s ∷ post
        → s.can_id ≡ frame.id
        → All (IsOther frame s.name) post
        → get_signal_value s.name q ≡ read_signal frame s)
    × ((name : String)
        → All (IsOther frame name) loaded.signals
        → get_signal_value name q ≡ get_signal_value name loaded)
    × (q.last_update ≡ 7000)
    × (q.engine ≡ update_engine_data (value_of q.values) 7000)
    × (q.signals ≡ loaded.signals)
unfolding make_frame
parse_frame-get_signal_value_example =
    parse_frame-get_signal_value 7000 frame loaded (omega arith) loaded-IsRead

parse_frame-protocol_example :
    (q : Parser) × (parse_frame 7000 frame
        (load_signals reverse (get_signals_for_protocol "haltech") new_parser)
      ≡ some q)
    × (q.last_update ≡ 7000)
unfolding make_frame
parse_frame-protocol_example =
    parse_frame-protocol reverse reverse-Arranges "haltech" 7000 frame new_parser frame-IsPayload
      refl

-- The frame in which BMW's controller sends that the engine light is on.
abbrev light_on : CanFrame
light_on = make_frame 0x545 8 (2 ∷ 0 ∷ 0 ∷ 0 ∷ 0 ∷ 0 ∷ 0 ∷ 0 ∷ [])

light_on-IsPayload : IsPayload light_on.bytes
unfolding make_frame
light_on-IsPayload = record { count = refl; small = ground arith }

light_on_dlc : light_on.dlc ≡ 8
unfolding make_frame
light_on_dlc = refl

parse_frames-bmw_example :
    (q : Parser) × (parse_frames
        ((7000, light_on) ∷ [])
        (load_signals reverse (get_signals_for_protocol "bmw") new_parser)
      ≡ some q)
    × (q.engine.flags % 2 ≡ 0)
parse_frames-bmw_example =
    parse_frames-bmw reverse reverse-Arranges ((7000, light_on) ∷ [])
      ((light_on-IsPayload, light_on_dlc), tt)

-- 3500 rpm, 110 degrees, 150 kPa of fuel, and nothing else.
abbrev readings : String → Option Ratio
readings name =
    if str_eq name "rpm"
    then some (record { num = pos 7000; den = 2 })
    else if str_eq name "coolant_temp"
    then some (record { num = pos 110; den = 1 })
    else if str_eq name "fuel_pressure"
    then some (record { num = pos 150; den = 1 })
    else none

update_engine_data-IsInRange_example : IsInRange (update_engine_data readings 7000)
update_engine_data-IsInRange_example = update_engine_data-IsInRange readings 7000 (omega arith)

readings_positive : (name : String) → 0 < (get_value readings name).den
unfolding get_value
readings_positive name =
    let Positive : Option Ratio → Type 0 = λ o. 0 < (value_or_zero o).den in
    if-elim Positive (str_eq name "rpm") (λ e. omega arith)
      (λ e.
        if-elim Positive (str_eq name "coolant_temp") (λ e. omega arith)
          (λ e.
            if-elim Positive (str_eq name "fuel_pressure") (λ e. omega arith) (λ e. omega arith)))

update_engine_data-warnings_example :
    ((update_engine_data readings 7000).flags / 2 % 2
      ≡ one (
          reaches 106 (get_value readings "coolant_temp")
          || is_set (get_value readings "overheat_flag")))
    × ((update_engine_data readings 7000).flags / 4096 % 2
        ≡ one (
            reaches 1001 (get_value readings "rpm")
            && is_below 100 (get_value readings "oil_pressure")))
    × ((update_engine_data readings 7000).flags / 8192 % 2
        ≡ one (
            reaches 1 (get_value readings "rpm")
            && (reaches 1 (get_value readings "fuel_pressure")
                && is_below 200 (get_value readings "fuel_pressure"))))
update_engine_data-warnings_example = update_engine_data-warnings readings 7000 readings_positive
