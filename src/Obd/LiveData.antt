-- ===== src/Obd/LiveData.antt =====
-- Live data: `decodePID`, `parseLiveData`, `requestPID` and `requestPIDs` of
-- src/can_service/src/obd_handler.cpp. A `double` is the exact quotient that its formula names.
use rpi_speeduino_dashboard.Common.{
  ℕ, suc, ◌+◌, ◌*◌, Bool, ◌||◌, Option, none, some, String, List, [], ◌∷◌, ◌++◌, leb, ◌==◌,
  if◌then◌else◌, get_or, u8,
}
use rpi_speeduino_dashboard.Common.Int.{pos, sub_ℕ}
pub use rpi_speeduino_dashboard.Common.Int.{Ratio}
use rpi_speeduino_dashboard.Bus.{CanFrame}
use rpi_speeduino_dashboard.Obd.Request.{Obd, build_request}
use rpi_speeduino_dashboard.Obd.Exchange.{Exchange, send_and_receive}

abbrev whole : ℕ → Ratio
whole n = record { num = pos n; den = 1 }

abbrev over : ℕ → ℕ → Ratio
over n d = record { num = pos n; den = d }

pub record LiveData : Type 0 where
  pub pid : ℕ
  pub value : Ratio
  pub unit : String

abbrev pub is_temperature : ℕ → Bool
is_temperature pid = pid == 0x05 || (pid == 0x0f || (pid == 0x46 || pid == 0x5c))

abbrev pub is_percentage : ℕ → Bool
is_percentage pid = pid == 0x04 || (pid == 0x11 || pid == 0x2f)

abbrev pub is_pressure : ℕ → Bool
is_pressure pid = pid == 0x0b || pid == 0x33

-- `a` and `b` are the bytes after the PID, `len` the number of them that the frame announces.
unfoldable pub decode_pid : ℕ → ℕ → ℕ → ℕ → Ratio
decode_pid pid a b len =
    let word = a * 256 + b in
    let long = leb 2 len in
    if is_temperature pid
    then record { num = sub_ℕ a 40; den = 1 }
    else if pid == 0x0c
    then (if long then over word 4 else whole 0)
    else if pid == 0x0d
    then whole a
    else if is_percentage pid
    then over (a * 100) 255
    else if is_pressure pid
    then whole a
    else if pid == 0x0e
    then record { num = sub_ℕ a 128; den = 2 }
    else if pid == 0x06 || pid == 0x07
    then record { num = sub_ℕ (a * 100) 12800; den = 128 }
    else if pid == 0x42
    then (if long then over word 1000 else whole 0)
    else if pid == 0x10
    then (if long then over word 100 else whole 0)
    else if pid == 0x14
    then over a 200
    else if pid == 0x0a
    then whole (a * 3)
    else if pid == 0x1f
    then (if long then whole word else whole 0)
    else if pid == 0x21
    then (if long then whole word else whole 0)
    else whole a

unfoldable pub unit_of : ℕ → String
unit_of pid =
    if is_temperature pid
    then "C"
    else if pid == 0x0c
    then "rpm"
    else if pid == 0x0d
    then "km/h"
    else if is_pressure pid
    then "kPa"
    else if is_percentage pid
    then "%"
    else if pid == 0x0e
    then "deg"
    else if pid == 0x42
    then "V"
    else if pid == 0x10
    then "g/s"
    else if pid == 0x14
    then "V"
    else if pid == 0x0a
    then "kPa"
    else if pid == 0x1f || pid == 0x21
    then "s"
    else ""

-- `response.data[0] - 2` in a `uint8_t`.
unfoldable pub payload_length : CanFrame → ℕ
payload_length f = u8 (get_or f.bytes 0 0 + 254)

unfoldable pub parse_live_data : ℕ → CanFrame → LiveData
parse_live_data pid f = record {
  pid = pid;
  value = decode_pid pid (get_or f.bytes 3 0) (get_or f.bytes 4 0) (payload_length f);
  unit = unit_of pid;
}

unfoldable pub request_pid : Exchange → ℕ → ℕ → Obd → Option (Option LiveData × Obd)
request_pid x pid timeout_ms o =
    elim (send_and_receive x (build_request o 0x01 pid 0) timeout_ms o) [
      | none ↦ none
      | some (none, o') ↦ some (none, o')
      | some (some f, o') ↦ some (some (parse_live_data pid f), o')
    ]

abbrev pub add_data : Option LiveData → List LiveData → List LiveData
add_data none results = results
add_data (some d) results = results ++ d ∷ []

-- One exchange for each PID, in turn.
unfoldable pub request_pids :
    (ℕ → Exchange) → ℕ → List ℕ → ℕ → List LiveData → Obd → Option (List LiveData × Obd)
request_pids x n [] timeout_ms results o = some (results, o)
request_pids x n (pid ∷ pids) timeout_ms results o = elim (request_pid (x n) pid timeout_ms o) [
  | none ↦ none
  | some (d, o') ↦ request_pids x (suc n) pids timeout_ms (add_data d results) o'
]
