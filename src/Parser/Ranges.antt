-- ===== src/Parser/Ranges.antt =====
-- The ranges of raw values, and the sign extension.
use rpi_speeduino_dashboard.Common.{
  ℕ, zero, suc, ◌+◌, ◌-◌, ◌/◌, ◌%◌, ◌^◌, ◌≤◌, ◌<◌, ◌≡◌, ◌≢◌, refl, ap, ◌∙◌, inl, inr, true, false,
  Option, some, arith, ltb, leb, ◌==◌, ◌||◌, length, u8, Bool-cases,
}
use native.Mathlib.Nat.{
  one-le-pow, mod-lt, two-pow-succ, pow-le-pow_right, div-eq_of_lt, div-eq_of_lt-le, mod-eq_of_lt,
}
use rpi_speeduino_dashboard.Common.Int.{ℤ, pos, negsuc, pos_part, neg_part}
use rpi_speeduino_dashboard.Bus.{CanFrame}
use rpi_speeduino_dashboard.Parser.Extract.{
  CanSignalDef, big_loop, little_loop, mask_raw, bytes_needed, load_bytes, extract_raw_value,
  to_int64, sign_extend, signed_value,
}
use rpi_speeduino_dashboard.Parser.Numbers.{get_elem-get_or}

-- A result that is there.
abbrev Has : Option ℕ → Type 0
Has o = (raw : ℕ) × (o ≡ some raw)

big_loop-Has :
    (n i : ℕ) (f : CanFrame) (start result : ℕ)
    → length f.bytes ≡ 8
    → f.dlc ≤ 8
    → Has (big_loop n i f start result)
unfolding big_loop
big_loop-Has zero i f start result eight dlc = (result, refl)
big_loop-Has (suc n) i f start result eight dlc = elim (Bool-cases (ltb (start + i) f.dlc)) [
  | inl within ↦
      rw (within, get_elem-get_or f.bytes (start + i) (ground arith), big_loop)
        (big_loop-Has n (suc i) f start _ eight dlc)
  | inr past ↦ rw (past, big_loop) (result, refl)
]

little_loop-Has :
    (n : ℕ) (f : CanFrame) (start result : ℕ)
    → length f.bytes ≡ 8
    → f.dlc ≤ 8
    → Has (little_loop n f start result)
unfolding little_loop
little_loop-Has zero f start result eight dlc = (result, refl)
little_loop-Has (suc n) f start result eight dlc = elim (Bool-cases (ltb (u8 (start + n)) f.dlc)) [
  | inl within ↦
      rw (within, get_elem-get_or f.bytes (u8 (start + n)) (ground arith), little_loop)
        (little_loop-Has n f start _ eight dlc)
  | inr past ↦ rw (past, little_loop) (little_loop-Has n f start result eight dlc)
]

load_bytes-Has :
    (f : CanFrame) (s : CanSignalDef) → length f.bytes ≡ 8 → f.dlc ≤ 8 → Has (load_bytes f s)
unfolding load_bytes
load_bytes-Has f s eight dlc = elim (Bool-cases s.is_big_endian) [
  | inl big ↦
      rw (big, load_bytes) (big_loop-Has (bytes_needed s.length_bits) 0 f s.start_byte 0 eight dlc)
  | inr little ↦
      rw (little, load_bytes)
        (little_loop-Has (bytes_needed s.length_bits) f s.start_byte 0 eight dlc)
]

-- A value with no more bits than a length.
abbrev pub Fits : ℕ → Option ℕ → Type 0
Fits bits o = (raw : ℕ) × (o ≡ some raw) × (raw < 2 ^ bits)

zero-Fits : (bits : ℕ) → Fits bits (some 0)
zero-Fits bits = (0, refl, one-le-pow bits 2 (omega arith))

-- Of a frame of at most eight bytes, a signal of fewer or more than 64 bits always has a value, with
-- no read outside the frame, and the value has no more bits than the signal.
pub extract_raw_value-Fits :
    (f : CanFrame) (s : CanSignalDef)
    → length f.bytes ≡ 8
    → f.dlc ≤ 8
    → s.length_bits ≢ 64
    → Fits s.length_bits (extract_raw_value f s)
unfolding extract_raw_value mask_raw
extract_raw_value-Fits f s eight dlc short =
    let (raw, loaded) = load_bytes-Has f s eight dlc in
    let not_64 : (s.length_bits == 64) ≡ false = ground arith in
    elim (Bool-cases (leb f.dlc s.start_byte)) [
      | inl outside ↦ rw (outside, extract_raw_value) (zero-Fits s.length_bits)
      | inr inside ↦ elim (Bool-cases (s.length_bits == 0 || ltb 64 s.length_bits)) [
        | inl odd ↦ rw (inside, odd, extract_raw_value) (zero-Fits s.length_bits)
        | inr sized ↦ elim (Bool-cases (leb 8 s.start_bit)) [
          | inl beyond ↦ rw (inside, sized, beyond, extract_raw_value) (zero-Fits s.length_bits)
          | inr in_byte ↦
              elim (Bool-cases (
                ltb 8 (bytes_needed s.length_bits)
                || ltb (255 - bytes_needed s.length_bits) s.start_byte)) [
                  | inl many ↦
                      rw (inside, sized, in_byte, many, extract_raw_value) (zero-Fits s.length_bits)
                  | inr few ↦
                      rw (inside, sized, in_byte, few, loaded, extract_raw_value)
                        (rw (not_64, mask_raw)
                          (_, refl, mod-lt _ (one-le-pow s.length_bits 2 (omega arith))))
                ]
        ]
      ]
    ]

-- The bit pattern of an integer in a number of bits, in two's complement.
unfoldable pub pattern : ℕ → ℤ → ℕ
pattern bits (pos n) = n % 2 ^ bits
pattern bits (negsuc n) = 2 ^ bits - 1 - n

-- The powers of two around a length of 1 to 63 bits.
halves : (bits : ℕ) → 1 ≤ bits → 2 ^ bits ≡ 2 ^ (bits - 1) + 2 ^ (bits - 1)
halves zero least = absurd (omega arith)
halves (suc b) least = two-pow-succ b ∙ ap (λ k. 2 ^ k + 2 ^ k) (the_last b)
  where
    the_last : (b : ℕ) → b ≡ suc b - 1
    the_last b = omega arith

half_bound : (bits : ℕ) → bits < 64 → 2 ^ (bits - 1) ≤ 2 ^ 62
half_bound bits most = pow-le-pow_right {n = 2} (omega arith) {j = 62} (omega arith)

sign_extend-low : (bits raw : ℕ) → raw < 2 ^ (bits - 1) → sign_extend bits raw ≡ raw
unfolding sign_extend
sign_extend-low bits raw low = rw (div-eq_of_lt low, sign_extend) refl

sign_extend-high :
    (bits raw : ℕ)
    → 1 ≤ bits
    → 2 ^ (bits - 1) ≤ raw
    → raw < 2 ^ bits
    → sign_extend bits raw ≡ raw + (2 ^ 64 - 2 ^ bits)
unfolding sign_extend
sign_extend-high bits raw least high below =
    let two = halves bits least in
    let one : raw / 2 ^ (bits - 1) ≡ 1 =
      div-eq_of_lt-le {k = 1} (2 ^ (bits - 1)) (omega arith) (omega (arith, two)) in
    rw (one, mod-eq_of_lt below, sign_extend) refl

-- A signed signal of 1 to 63 bits gives back each integer in its range from its bit pattern.
pub signed_value-pattern :
    (s : CanSignalDef) (v : ℤ)
    → s.is_signed ≡ true
    → 1 ≤ s.length_bits
    → s.length_bits < 64
    → pos_part v < 2 ^ (s.length_bits - 1)
    → neg_part v ≤ 2 ^ (s.length_bits - 1)
    → signed_value (pattern s.length_bits v) s ≡ some v
unfolding signed_value to_int64 pattern
signed_value-pattern s (pos n) signed least most below above =
    let two = halves s.length_bits least in
    let bound = half_bound s.length_bits most in
    let sized : (s.length_bits == 0 || leb 64 s.length_bits) ≡ false = ground arith in
    let plain : n % 2 ^ s.length_bits ≡ n = mod-eq_of_lt (omega (arith, two, below)) in
    let small : ltb n (2 ^ 63) ≡ true = ground arith in
    rw (signed, sized, signed_value)
      (ap (λ w. some (to_int64 w))
          (ap (sign_extend s.length_bits) plain ∙ sign_extend-low s.length_bits n below)
        ∙ rw (small, to_int64) refl)
signed_value-pattern s (negsuc n) signed least most below above =
    let two = halves s.length_bits least in
    let bound = half_bound s.length_bits most in
    let sized : (s.length_bits == 0 || leb 64 s.length_bits) ≡ false = ground arith in
    let extended =
      sign_extend-high s.length_bits (2 ^ s.length_bits - 1 - n) least (omega (arith, two, above))
        (omega (arith, two, above)) in
    let word : (2 ^ s.length_bits - 1 - n) + (2 ^ 64 - 2 ^ s.length_bits) ≡ 2 ^ 64 - 1 - n =
      omega (arith, two, bound, above) in
    let bounded : n < 2 ^ 62 = omega (arith, bound, above) in
    rw (signed, sized, signed_value)
      (ap (λ w. some (to_int64 w)) (extended ∙ word) ∙ minus n bounded)
  where
    minus : (n : ℕ) → n < 2 ^ 62 → some (to_int64 (2 ^ 64 - 1 - n)) ≡ some (negsuc n)
    minus n h =
        let large : ltb (2 ^ 64 - 1 - n) (2 ^ 63) ≡ false = ground arith in
        let under : leb (2 ^ 64) (2 ^ 64 - 1 - n) ≡ false = ground arith in
        let back : 2 ^ 64 - (2 ^ 64 - 1 - n) - 1 ≡ n = omega arith in
        rw (large, to_int64) (rw under (ap (λ k. some (negsuc k)) back))
