-- ===== src/Parser/Extract.antt =====
-- The raw values of signals: `extractRawValue` of src/can_service/src/can_parser.cpp, and the sign
-- extension of `applyScaling`. The signals are `CanSignalDef` of
-- src/common/include/common/config_loader.hpp.
use rpi_speeduino_dashboard.Common.{
  ℕ, zero, suc, ◌+◌, ◌-◌, ◌*◌, ◌/◌, ◌%◌, ◌^◌, Bool, ◌||◌, Option, none, some, String, ltb, leb,
  ◌==◌, if◌then◌else◌, get_elem?, u8, u64,
}
use rpi_speeduino_dashboard.Common.Int.{ℤ, pos, sub_ℕ, Ratio}
use rpi_speeduino_dashboard.Bus.{CanFrame}

-- Without the unit, which only the displays use.
pub record CanSignalDef : Type 0 where
  pub name : String
  pub can_id : ℕ
  pub start_byte : ℕ
  pub start_bit : ℕ
  pub length_bits : ℕ
  pub is_big_endian : Bool
  pub is_signed : Bool
  pub scale : Ratio
  pub offset : Ratio

-- `(result << 8) | byte` on `uint64_t`: the shifted word ends in eight zeros.
unfoldable pub push : ℕ → ℕ → ℕ
push result byte = u64 (result * 256) + byte

-- The loop over big-endian bytes from `i` on, with `n` rounds left. `none` is a read outside the
-- eight bytes of the array.
unfoldable pub big_loop : ℕ → ℕ → CanFrame → ℕ → ℕ → Option ℕ
big_loop zero i f start result = some result
big_loop (suc n) i f start result =
    if ltb (start + i) f.dlc
    then elim (get_elem? f.bytes (start + i)) [
      | none ↦ none
      | some byte ↦ big_loop n (suc i) f start (push result byte)
    ]
    else some result

-- The loop over little-endian bytes, whose next byte index is `n - 1`.
unfoldable pub little_loop : ℕ → CanFrame → ℕ → ℕ → Option ℕ
little_loop zero f start result = some result
little_loop (suc n) f start result =
    if ltb (u8 (start + n)) f.dlc
    then elim (get_elem? f.bytes (u8 (start + n))) [
      | none ↦ none
      | some byte ↦ little_loop n f start (push result byte)
    ]
    else little_loop n f start result

-- The shift and the mask. `none` is the shift `1ULL << 64`, which has no defined meaning.
unfoldable pub mask_raw : ℕ → ℕ → Option ℕ → Option ℕ
mask_raw start_bit length_bits none = none
mask_raw start_bit length_bits (some raw) =
    if length_bits == 64 then none else some (raw / 2 ^ start_bit % 2 ^ length_bits)

abbrev pub bytes_needed : ℕ → ℕ
bytes_needed length_bits = (length_bits + 7) / 8

unfoldable pub load_bytes : CanFrame → CanSignalDef → Option ℕ
load_bytes f s =
    if s.is_big_endian
    then big_loop (bytes_needed s.length_bits) 0 f s.start_byte 0
    else little_loop (bytes_needed s.length_bits) f s.start_byte 0

unfoldable pub extract_raw_value : CanFrame → CanSignalDef → Option ℕ
extract_raw_value f s =
    if leb f.dlc s.start_byte
    then some 0
    else if s.length_bits == 0 || ltb 64 s.length_bits
    then some 0
    else if leb 8 s.start_bit
    then some 0
    else if ltb 8 (bytes_needed s.length_bits)
        || ltb (255 - bytes_needed s.length_bits) s.start_byte
    then some 0
    else mask_raw s.start_bit s.length_bits (load_bytes f s)

-- `static_cast<int64_t>`
unfoldable pub to_int64 : ℕ → ℤ
to_int64 word = if ltb word (2 ^ 63) then pos word else sub_ℕ word (2 ^ 64)

-- The sign bit, and the word with the bits above it set.
unfoldable pub sign_extend : ℕ → ℕ → ℕ
sign_extend bits raw =
    if raw / 2 ^ (bits - 1) % 2 == 1 then raw % 2 ^ bits + (2 ^ 64 - 2 ^ bits) else raw

-- The number that `applyScaling` scales. `none` is a shift by a negative amount or by 64.
unfoldable pub signed_value : ℕ → CanSignalDef → Option ℤ
signed_value raw s =
    if s.is_signed
    then (if s.length_bits == 0 || leb 64 s.length_bits
        then none
        else some (to_int64 (sign_extend s.length_bits raw)))
    else some (pos raw)
