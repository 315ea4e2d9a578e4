-- ===== src/Obd/Supported.antt =====
-- `getSupportedPIDs` of src/can_service/src/obd_handler.cpp.
use rpi_speeduino_dashboard.Common.{
  ℕ, zero, suc, ◌+◌, ◌-◌, ◌*◌, ◌/◌, ◌%◌, ◌^◌, Bool, true, false, ◌&&◌, Option, none, some, List, [],
  ◌∷◌, ◌++◌, ◌==◌, if◌then◌else◌, get_or, u8,
}
use rpi_speeduino_dashboard.Bus.{CanFrame}
use rpi_speeduino_dashboard.Obd.Request.{Obd, build_request}
use rpi_speeduino_dashboard.Obd.Exchange.{Exchange, send_and_receive}

-- The PIDs found so far, and `nextRangeSupported`.
pub record Found : Type 0 where
  pub supported : List ℕ
  pub next : Bool

-- One bit of the bitmap, at an offset below 32: bit 7 of the first byte is offset 0.
unfoldable pub scan_bit : ℕ → ℕ → ℕ → ℕ → Found → Found
scan_bit range byte byte_idx bit_idx s =
    let pid = u8 (range + byte_idx * 8 + (7 - bit_idx) + 1) in
    if byte / 2 ^ bit_idx % 2 == 1
    then (if pid == range + 0x20
        then record s { next = true }
        else record s { supported = s.supported ++ pid ∷ [] })
    else s

-- The inner loop, from `bit_idx = n - 1` down to 0.
unfoldable pub scan_byte : ℕ → ℕ → ℕ → ℕ → Found → Found
scan_byte range byte byte_idx zero s = s
scan_byte range byte byte_idx (suc n) s =
    scan_byte range byte byte_idx n (scan_bit range byte byte_idx n s)

-- The outer loop over the bytes 3 to 6 of the response.
unfoldable pub scan_bitmap : ℕ → CanFrame → List ℕ → Found
scan_bitmap range f supported = scan_byte range (get_or f.bytes 6 0) 3 8 (
    scan_byte range (get_or f.bytes 5 0) 2 8 (
      scan_byte range (get_or f.bytes 4 0) 1 8 (
        scan_byte range (get_or f.bytes 3 0) 0 8 (record { supported = supported; next = false }))))

unfoldable pub is_bitmap : ℕ → CanFrame → Bool
is_bitmap range f = get_or f.bytes 1 0 == 0x41 && get_or f.bytes 2 0 == range

-- What follows an exchange; `rest` goes on with the next range.
unfoldable pub after_answer :
    ℕ → List ℕ → Obd → (Found → Option (List ℕ × Obd)) → Option CanFrame → Option (List ℕ × Obd)
after_answer range supported o rest none = some (supported, o)
after_answer range supported o rest (some f) =
    let found = scan_bitmap range f supported in
    if is_bitmap range f
    then (if found.next then rest found else some (found.supported, o))
    else some (supported, o)

-- The loop over the ranges; `x n` is the n-th exchange. `none` means that the fuel ran out, here or
-- in an exchange.
unfoldable pub query : ℕ → ℕ → (ℕ → Exchange) → ℕ → List ℕ → Obd → Option (List ℕ × Obd)
query zero n x range supported o = none
query (suc fuel) n x range supported o =
    elim (send_and_receive (x n) (build_request o 0x01 range 0) 0 o) [
      | none ↦ none
      | some (a, o') ↦
          after_answer range supported o'
            (λ found. query fuel (suc n) x (u8 (range + 0x20)) found.supported o') a
    ]

-- Eight ranges are enough.
unfoldable pub get_supported_pids : (ℕ → Exchange) → Obd → Option (List ℕ × Obd)
get_supported_pids x o = query 8 0 x 0 [] o
