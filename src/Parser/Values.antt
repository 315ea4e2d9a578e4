-- ===== src/Parser/Values.antt =====
-- The store of values: `loadSignals`, `parseFrame`, `applyScaling`, `getSignalValue`, `isDataFresh` and
-- `reset` of src/can_service/src/can_parser.cpp. A `double` is an exact ratio here.
use rpi_speeduino_dashboard.Common.{
  ℕ, ◌+◌, ◌-◌, ◌*◌, Bool, true, false, List, [], ◌∷◌, Option, none, some, String, str_eq,
  if◌then◌else◌, ltb, ◌==◌, map, u32,
}
use rpi_speeduino_dashboard.Common.Int.{ℤ, pos, Ratio, add_ℤ, mul_ℤ, scale_ℤ}
use rpi_speeduino_dashboard.Bus.{CanFrame}
use rpi_speeduino_dashboard.Parser.Extract.{CanSignalDef, extract_raw_value, signed_value}
use rpi_speeduino_dashboard.Parser.Engine.{EngineData, new_engine_data, update_engine_data}

pub record ParsedSignal : Type 0 where
  pub name : String
  pub value : Ratio
  pub timestamp_us : ℕ
  pub valid : Bool

-- Of several entries for a name in `values`, the first one counts. The signals stand in the order in
-- which the unordered multimap goes through them, of which its standard says nothing.
pub record Parser : Type 0 where
  pub signals : List CanSignalDef
  pub values : List ParsedSignal
  pub engine : EngineData
  pub last_update : ℕ

unfoldable pub new_parser : Parser
new_parser = record { signals = []; values = []; engine = new_engine_data; last_update = 0 }

unfoldable pub find_value : String → List ParsedSignal → Option ParsedSignal
find_value name [] = none
find_value name (v ∷ vs) = if str_eq v.name name then some v else find_value name vs

abbrev pub valid_value : Option ParsedSignal → Option Ratio
valid_value none = none
valid_value (some v) = if v.valid then some v.value else none

unfoldable pub get_signal_value : String → Parser → Option Ratio
get_signal_value name p = valid_value (find_value name p.values)

abbrev zero_ratio : Ratio
zero_ratio = record { num = pos 0; den = 1 }

unfoldable pub unread : CanSignalDef → ParsedSignal
unread s = record { name = s.name; value = zero_ratio; timestamp_us = 0; valid = false }

unfoldable pub unread_all : List CanSignalDef → List ParsedSignal → List ParsedSignal
unread_all [] vs = vs
unread_all (s ∷ ss) vs = unread_all ss (unread s ∷ vs)

-- `arrange` puts the signals in the order of the multimap.
unfoldable pub load_signals :
    (List CanSignalDef → List CanSignalDef) → List CanSignalDef → Parser → Parser
load_signals arrange ss p = record p { signals = arrange ss; values = unread_all ss [] }

-- (value * scale) + offset
unfoldable pub scaled : CanSignalDef → ℤ → Ratio
scaled s value = record {
  num = add_ℤ (scale_ℤ s.offset.den (mul_ℤ value s.scale.num)) (scale_ℤ s.scale.den s.offset.num);
  den = s.scale.den * s.offset.den;
}

-- `none` is a shift that has no defined result.
unfoldable pub apply_scaling : ℕ → CanSignalDef → Option Ratio
apply_scaling raw s = elim (signed_value raw s) [ none ↦ none | some value ↦ some (scaled s value) ]

-- The value of a signal in a frame.
unfoldable pub read_signal : CanFrame → CanSignalDef → Option Ratio
read_signal f s = elim (extract_raw_value f s) [ none ↦ none | some raw ↦ apply_scaling raw s ]

abbrev pub parsed : CanFrame → CanSignalDef → Ratio → ParsedSignal
parsed f s value = record {
  name = s.name;
  value = value;
  timestamp_us = f.timestamp_us;
  valid = true;
}

-- The loop over the signals of the frame's identifier, in the order of the multimap.
unfoldable pub store_signals :
    CanFrame → List CanSignalDef → List ParsedSignal → Option (List ParsedSignal)
store_signals f [] vs = some vs
store_signals f (s ∷ ss) vs =
    if s.can_id == f.id
    then elim (read_signal f s) [
      | none ↦ none
      | some value ↦ store_signals f ss (parsed f s value ∷ vs)
    ]
    else store_signals f ss vs

-- The engine data is built from the values, by name.
abbrev pub value_of : List ParsedSignal → String → Option Ratio
value_of vs name = valid_value (find_value name vs)

-- `none` is a read past the frame's eight bytes, or a shift without a defined result.
unfoldable pub parse_frame : ℕ → CanFrame → Parser → Option Parser
parse_frame now f p = if ltb 64 f.dlc then some p else elim (store_signals f p.signals p.values) [
  | none ↦ none
  | some vs ↦
      some
        (record p { values = vs; last_update = now; engine = update_engine_data (value_of vs) now })
]

-- The times are 32-bit counts of milliseconds.
unfoldable pub is_data_fresh : ℕ → ℕ → Parser → Bool
is_data_fresh now timeout_ms p = ltb (u32 (now + 4294967296 - p.last_update)) timeout_ms

unfoldable pub reset_value : ParsedSignal → ParsedSignal
reset_value v = record v { value = zero_ratio; valid = false }

unfoldable pub reset_values : Parser → Parser
reset_values p = record p {
  values = map reset_value p.values;
  engine = new_engine_data;
  last_update = 0;
}
