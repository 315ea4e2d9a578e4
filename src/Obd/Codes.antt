-- ===== src/Obd/Codes.antt =====
-- Trouble codes: `DTC::fromBytes` of src/can_service/src/obd_handler.cpp.
use rpi_speeduino_dashboard.Common.{
  ℕ, ◌+◌, ◌-◌, ◌*◌, ◌/◌, ◌%◌, ◌<◌, ◌≡◌, ap, Bool, false, Option, none, some, String, List, [], ◌∷◌,
  arith, ltb, ◌==◌, if◌then◌else◌,
}
use rpi_speeduino_dashboard.Obd.Descriptions.{get_description}

pub record Dtc : Type 0 where
  pub code : List ℕ
  pub description : String
  pub is_pending : Bool

unfoldable pub category_char : ℕ → ℕ
category_char n =
    if n == 0
    then b'P'
    else if n == 1
    then b'C'
    else if n == 2
    then b'B'
    else if n == 3
    then b'U'
    else b'P'

-- A digit under `std::hex << std::uppercase`.
unfoldable pub hex_char : ℕ → ℕ
hex_char n = if ltb n 10 then b'0' + n else b'A' + (n - 10)

unfoldable pub code_of_bytes : ℕ → ℕ → List ℕ
code_of_bytes high low =
    category_char (high / 64 % 4)
    ∷ (b'0' + high / 16 % 4)
    ∷ hex_char (high % 16)
    ∷ hex_char (low / 16 % 16)
    ∷ hex_char (low % 16)
    ∷ []

unfoldable pub from_bytes : ℕ → ℕ → Dtc
from_bytes high low = record {
  code = code_of_bytes high low;
  description = get_description (code_of_bytes high low);
  is_pending = false;
}

-- The reading of a code back, which the program does not have: what SAE J2012 says of the text.
unfoldable pub category_bits : ℕ → ℕ
category_bits c = if c == b'P' then 0 else if c == b'C' then 1 else if c == b'B' then 2 else 3

unfoldable pub hex_value : ℕ → ℕ
hex_value c = if ltb c b'A' then c - b'0' else c - b'A' + 10

unfoldable pub bytes_of_code : List ℕ → Option (ℕ × ℕ)
bytes_of_code (c ∷ d ∷ e ∷ f ∷ g ∷ []) =
    some (category_bits c * 64 + (d - b'0') * 16 + hex_value e, hex_value f * 16 + hex_value g)
bytes_of_code _ = none

category-round_trip : (n : ℕ) → n < 4 → category_bits (category_char n) ≡ n
unfolding category_bits category_char
category-round_trip n h = ground arith

hex-round_trip : (n : ℕ) → n < 16 → hex_value (hex_char n) ≡ n
unfolding hex_value hex_char
hex-round_trip n h = ground arith

-- The text of a trouble code determines its two bytes: reading the code that `fromBytes` writes
-- gives the bytes back.
pub bytes_of_code-from_bytes :
    (high low : ℕ)
    → high < 256
    → low < 256
    → bytes_of_code (from_bytes high low).code ≡ some (high, low)
unfolding bytes_of_code from_bytes code_of_bytes
bytes_of_code-from_bytes high low h l = ap some (λ i. (first i, second i))
  where
    first :
        category_bits (category_char (high / 64 % 4)) * 64
          + (b'0' + high / 16 % 4 - b'0') * 16
          + hex_value (hex_char (high % 16))
        ≡ high
    first = omega (
      arith,
      category-round_trip (high / 64 % 4) (omega arith),
      hex-round_trip (high % 16) (omega arith),
    )

    second : hex_value (hex_char (low / 16 % 16)) * 16 + hex_value (hex_char (low % 16)) ≡ low
    second = omega (
      arith,
      hex-round_trip (low / 16 % 16) (omega arith),
      hex-round_trip (low % 16) (omega arith),
    )
