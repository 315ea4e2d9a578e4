-- ===== src/Obd/EcuName.antt =====
-- The ECU's name: `getECUName` of src/can_service/src/obd_handler.cpp, with its loop over the
-- consecutive frames. It ends at a zero, at twenty characters, or after a second.
use rpi_speeduino_dashboard.Common.{
  ℕ, zero, suc, ◌+◌, ◌*◌, Bool, false, not, ◌&&◌, ◌||◌, Option, none, some, List, [], ◌∷◌, ◌++◌,
  ltb, ◌==◌, if◌then◌else◌, get_or, length, u8,
}
use rpi_speeduino_dashboard.Bus.{CanFrame}
use rpi_speeduino_dashboard.Obd.Request.{Obd, build_request}
use rpi_speeduino_dashboard.Obd.Exchange.{Exchange, send_and_receive, pci_type}
use rpi_speeduino_dashboard.Obd.Vin.{Tail, bytes_from, is_next, non_empty}

-- The characters up to the first zero.
unfoldable pub until_zero : List ℕ → List ℕ
until_zero [] = []
until_zero (c ∷ cs) = if c == 0 then [] else c ∷ until_zero cs

-- The characters up to the first zero are appended, up to a length.
unfoldable pub add_until_zero : ℕ → List ℕ → List ℕ → List ℕ
add_until_zero limit [] text = text
add_until_zero limit (c ∷ cs) text =
    if ltb (length text) limit && not (c == 0)
    then add_until_zero limit cs (text ++ c ∷ [])
    else text

unfoldable pub has_zero : List ℕ → Bool
has_zero [] = false
has_zero (c ∷ cs) = c == 0 || has_zero cs

-- The name so far, the sequence number that is expected, a `uint8_t`, and whether a zero was found.
pub record NamePart : Type 0 where
  pub name : List ℕ
  pub expected : ℕ
  pub ended : Bool

unfoldable pub take_name_frame : Option CanFrame → NamePart → NamePart
take_name_frame none p = p
take_name_frame (some f) p =
    if is_next p.expected f
    then record {
      name = add_until_zero 20 (bytes_from f 1 7) p.name;
      expected = u8 (p.expected + 1);
      ended = has_zero (bytes_from f 1 7);
    }
    else p

-- The loop from its k-th round on; `none` means that the fuel ran out. A part that has ended leaves
-- the loop at once, as the `break` at the end of a round does.
unfoldable pub collect_name : ℕ → ℕ → Tail → NamePart → Option (List ℕ)
collect_name zero k t p = none
collect_name (suc fuel) k t p =
    let rest = collect_name fuel (suc k) t (take_name_frame (t.received k) p) in
    if not p.ended && ltb (length p.name) 20
    then (if ltb (1000 * 1000000) (t.elapsed k) then some p.name else rest)
    else some p.name

abbrev pub named : Option (List ℕ) → Option (Option (List ℕ))
named none = none
named (some name) = some (non_empty name)

-- What follows the first response. The outer `none` means that the fuel ran out.
unfoldable pub name_of : ℕ → Tail → CanFrame → Option (Option (List ℕ))
name_of fuel t f =
    if pci_type f == 0
    then (if get_or f.bytes 1 0 == 0x49 && get_or f.bytes 2 0 == 0x0a
        then some (non_empty (until_zero (bytes_from f 4 4)))
        else some none)
    else if pci_type f == 1
    then (if get_or f.bytes 2 0 == 0x49 && get_or f.bytes 3 0 == 0x0a
        then (let start = until_zero (bytes_from f 5 3) in
            if t.sent
            then named
                (collect_name fuel 0 t (record { name = start; expected = 1; ended = false }))
            else some (non_empty start))
        else some none)
    else some none

unfoldable pub get_ecu_name : ℕ → Exchange → Tail → Obd → Option (Option (List ℕ) × Obd)
get_ecu_name fuel x t o = elim (send_and_receive x (build_request o 0x09 0x0a 0) 500 o) [
  | none ↦ none
  | some (none, o') ↦ some (none, o')
  | some (some f, o') ↦ elim (name_of fuel t f) [ none ↦ none | some name ↦ some (name, o') ]
]
