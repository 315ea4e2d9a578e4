-- ===== src/Obd/Vin.antt =====
-- The vehicle identification number: `getVIN` of src/can_service/src/obd_handler.cpp, with its loop
-- over the consecutive frames.
use rpi_speeduino_dashboard.Common.{
  ℕ, zero, suc, ◌+◌, ◌-◌, ◌*◌, ◌%◌, Bool, not, ◌&&◌, Option, none, some, List, [], ◌∷◌, ◌++◌, ltb,
  ◌==◌, if◌then◌else◌, get_or, length, u8, min,
}
use rpi_speeduino_dashboard.Bus.{CanFrame}
use rpi_speeduino_dashboard.Obd.Request.{Obd, build_request, response_ecu}
use rpi_speeduino_dashboard.Obd.Exchange.{Exchange, send_and_receive, pci_type}

-- What the bus and the clock do after the first frame: whether the flow control is sent, the
-- nanoseconds since then at the k-th look, and what the k-th `receive` returns.
pub record Tail : Type 0 where
  pub sent : Bool
  pub elapsed : ℕ → ℕ
  pub received : ℕ → Option CanFrame

-- Characters that are not zero are appended, up to a length.
unfoldable pub add_chars : ℕ → List ℕ → List ℕ → List ℕ
add_chars limit [] text = text
add_chars limit (c ∷ cs) text =
    add_chars limit cs (if ltb (length text) limit && not (c == 0) then text ++ c ∷ [] else text)

-- The bytes from `i` on, `n` of them.
unfoldable pub bytes_from : CanFrame → ℕ → ℕ → List ℕ
bytes_from f i zero = []
bytes_from f i (suc n) = get_or f.bytes i 0 ∷ bytes_from f (i + 1) n

-- The text so far, and the sequence number that is expected, a `uint8_t`.
pub record Partial : Type 0 where
  pub vin : List ℕ
  pub expected : ℕ

unfoldable pub is_next : ℕ → CanFrame → Bool
is_next expected f =
    f.id == response_ecu && (pci_type f == 2 && get_or f.bytes 0 0 % 16 == expected % 16)

-- One round of the loop, past its looks at the length and at the clock.
unfoldable pub take_frame : Option CanFrame → Partial → Partial
take_frame none p = p
take_frame (some f) p =
    if is_next p.expected f
    then record { vin = add_chars 17 (bytes_from f 1 7) p.vin; expected = u8 (p.expected + 1) }
    else p

-- The loop from its k-th round on; `none` means that the fuel ran out.
unfoldable pub collect : ℕ → ℕ → Tail → Partial → Option (List ℕ)
collect zero k t p = none
collect (suc fuel) k t p =
    let rest = collect fuel (suc k) t (take_frame (t.received k) p) in
    if ltb (length p.vin) 17
    then (if ltb (1000 * 1000000) (t.elapsed k) then some p.vin else rest)
    else some p.vin

unfoldable pub non_empty : List ℕ → Option (List ℕ)
non_empty [] = none
non_empty (c ∷ cs) = some (c ∷ cs)

-- A single frame: the characters from byte 4 up to the end that the length gives.
unfoldable pub single_vin : CanFrame → Option (List ℕ)
single_vin f =
    if get_or f.bytes 1 0 == 0x49 && get_or f.bytes 2 0 == 0x02
    then non_empty (add_chars 17 (bytes_from f 4 (min (get_or f.bytes 0 0 % 16 + 4 - 3) 8 - 4)) [])
    else none

abbrev pub collected : Option (List ℕ) → Option (Option (List ℕ))
collected none = none
collected (some vin) = some (non_empty vin)

-- What follows the first response. The outer `none` means that the fuel ran out.
unfoldable pub vin_of : ℕ → Tail → CanFrame → Option (Option (List ℕ))
vin_of fuel t f =
    if pci_type f == 0
    then some (single_vin f)
    else if pci_type f == 1
    then (if get_or f.bytes 2 0 == 0x49 && get_or f.bytes 3 0 == 0x02
        then (let start = add_chars 17 (bytes_from f 5 3) [] in
            if t.sent
            then collected (collect fuel 0 t (record { vin = start; expected = 1 }))
            else some (non_empty start))
        else some none)
    else some none

unfoldable pub get_vin : ℕ → Exchange → Tail → Obd → Option (Option (List ℕ) × Obd)
get_vin fuel x t o = elim (send_and_receive x (build_request o 0x09 0x02 0) 500 o) [
  | none ↦ none
  | some (none, o') ↦ some (none, o')
  | some (some f, o') ↦ elim (vin_of fuel t f) [ none ↦ none | some vin ↦ some (vin, o') ]
]
