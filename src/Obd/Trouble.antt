-- ===== src/Obd/Trouble.antt =====
-- Trouble codes over the bus: `readDTCs`, `readPendingDTCs` and `clearDTCs` of
-- src/can_service/src/obd_handler.cpp.
use rpi_speeduino_dashboard.Common.{
  ℕ, zero, suc, ◌+◌, ◌*◌, Bool, true, false, ◌&&◌, Option, none, some, List, [], ◌∷◌, ltb, ◌==◌,
  if◌then◌else◌, get_or, get_elem?, min,
}
use rpi_speeduino_dashboard.Obd.Codes.{Dtc, from_bytes}
use rpi_speeduino_dashboard.Obd.Request.{Obd, build_request}
use rpi_speeduino_dashboard.Obd.Exchange.{Exchange, send_and_receive}

pub record DtcList : Type 0 where
  pub confirmed : List Dtc
  pub pending : List Dtc
  pub mil_on : Bool
  pub dtc_count : ℕ

unfoldable pub no_dtcs : DtcList
no_dtcs = record { confirmed = []; pending = []; mil_on = false; dtc_count = 0 }

abbrev add_code : Bool → ℕ → ℕ → List Dtc → List Dtc
add_code pending high low rest =
    if high == 0 && low == 0
    then rest
    else record (from_bytes high low) { is_pending = pending } ∷ rest

-- The loop from `i` on, with `n` rounds left. `none` is a read outside the eight bytes of the frame,
-- which has no defined meaning.
unfoldable pub read_codes : Bool → List ℕ → ℕ → ℕ → Option (List Dtc)
read_codes pending bytes zero i = some []
read_codes pending bytes (suc n) i = elim (get_elem? bytes (3 + i * 2)) [
  | none ↦ none
  | some high ↦ elim (get_elem? bytes (4 + i * 2)) [
    | none ↦ none
    | some low ↦ elim (read_codes pending bytes n (i + 1)) [
      | none ↦ none
      | some rest ↦ some (add_code pending high low rest)
    ]
  ]
]

abbrev pub dtc_list : ℕ → Option (List Dtc) → Option DtcList
dtc_list count none = none
dtc_list count (some codes) =
    some (record { confirmed = codes; pending = []; mil_on = ltb 0 count; dtc_count = count })

-- What `readDTCs` makes of the bytes of a response. `none` is a read outside the frame.
unfoldable pub parse_dtcs : List ℕ → Option DtcList
parse_dtcs bytes =
    let count = get_or bytes 2 0 in
    if get_or bytes 1 0 == 0x43
    then dtc_list count (read_codes false bytes (min count 3) 0)
    else some no_dtcs

unfoldable pub parse_pending : List ℕ → Option (List Dtc)
parse_pending bytes =
    if get_or bytes 1 0 == 0x47 then read_codes true bytes (min (get_or bytes 2 0) 3) 0 else some []

-- In the next three the outer `none` means that the fuel of the exchange ran out.
unfoldable pub read_dtcs : Exchange → Obd → Option (Option DtcList × Obd)
read_dtcs x o = elim (send_and_receive x (build_request o 0x03 0 0) 0 o) [
  | none ↦ none
  | some (none, o') ↦ some (some no_dtcs, o')
  | some (some f, o') ↦ some (parse_dtcs f.bytes, o')
]

unfoldable pub read_pending_dtcs : Exchange → Obd → Option (Option (List Dtc) × Obd)
read_pending_dtcs x o = elim (send_and_receive x (build_request o 0x07 0 0) 0 o) [
  | none ↦ none
  | some (none, o') ↦ some (some [], o')
  | some (some f, o') ↦ some (parse_pending f.bytes, o')
]

unfoldable pub clear_dtcs : Exchange → Obd → Option (Bool × Obd)
clear_dtcs x o = elim (send_and_receive x (build_request o 0x04 0 0) 0 o) [
  | none ↦ none
  | some (none, o') ↦ some (false, o')
  | some (some f, o') ↦ some (get_or f.bytes 1 0 == 0x44, o')
]

-- `readAuxChannel` and `readStatusField`, with the second PID byte that each passes.
unfoldable pub read_custom : ℕ → Exchange → ℕ → Obd → Option (Option ℕ × Obd)
read_custom prefix x index o = elim (send_and_receive x (build_request o 0x22 index prefix) 0 o) [
  | none ↦ none
  | some (none, o') ↦ some (none, o')
  | some (some f, o') ↦ some (
    (if get_or f.bytes 1 0 == 0x62
        then some (get_or f.bytes 4 0 * 256 + get_or f.bytes 5 0)
        else none),
    o',
  )
]

unfoldable pub read_aux_channel : Exchange → ℕ → Obd → Option (Option ℕ × Obd)
unfolding read_custom
read_aux_channel = read_custom 0x77

unfoldable pub read_status_field : Exchange → ℕ → Obd → Option (Option ℕ × Obd)
unfolding read_custom
read_status_field = read_custom 0x78
