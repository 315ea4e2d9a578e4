-- ===== src/Parser/Numbers.antt =====
-- Which number `extractRawValue` reads from a frame, in both byte orders, and when it reads outside.
use rpi_speeduino_dashboard.Common.{
  ℕ, zero, suc, ◌+◌, ◌-◌, ◌*◌, ◌/◌, ◌%◌, ◌^◌, ◌≤◌, ◌<◌, ◌≡◌, refl, ap, ◌∙◌, sym, subst, inl, inr,
  true, false, some, List, [], ◌∷◌, arith, ltb, leb, ◌==◌, ◌||◌, if◌then◌else◌, get_elem?, get_or,
  length, All, u8, u64, Bool-cases,
}
use native.Mathlib.Nat.{
  mul_assoc, add-mul, pow-succ', one-le-pow, mul-le-mul_left, mul-le-mul_right, pow-le-pow_right,
}
use rpi_speeduino_dashboard.Bus.{CanFrame, IsPayload}
use rpi_speeduino_dashboard.Parser.Extract.{
  CanSignalDef, push, big_loop, little_loop, mask_raw, bytes_needed, load_bytes, extract_raw_value,
}

-- The bytes `start` to `start + n - 1` as one number, the most significant byte first.
unfoldable pub big_number : List ℕ → ℕ → ℕ → ℕ
big_number bytes start zero = 0
big_number bytes start (suc n) = get_or bytes start 0 * 256 ^ n + big_number bytes (suc start) n

-- And with the least significant byte first.
unfoldable pub little_number : List ℕ → ℕ → ℕ → ℕ
little_number bytes start zero = 0
little_number bytes start (suc n) = get_or bytes start 0 + 256 * little_number bytes (suc start) n

pub get_elem-get_or :
    (bytes : List ℕ) (i : ℕ) → i < length bytes → get_elem? bytes i ≡ some (get_or bytes i 0)
get_elem-get_or [] i h = absurd (omega arith)
get_elem-get_or (b ∷ bytes) zero h = refl
get_elem-get_or (b ∷ bytes) (suc i) h = get_elem-get_or bytes i (omega arith)

get_or-small : (bytes : List ℕ) (i : ℕ) → All (λ b. b < 256) bytes → get_or bytes i 0 < 256
get_or-small [] i h = omega arith
get_or-small (b ∷ bytes) zero h = h.0
get_or-small (b ∷ bytes) (suc i) h = get_or-small bytes i h.1

-- A word with room for `n + 1` more bytes takes one without a loss.
push-room :
    (n result byte : ℕ)
    → (result + 1) * 256 ^ suc n ≤ 2 ^ 64
    → byte < 256
    → (push result byte ≡ result * 256 + byte) × ((push result byte + 1) * 256 ^ n ≤ 2 ^ 64)
unfolding push
push-room n result byte h k =
    let regroup : (result + 1) * 256 ^ suc n ≡ ((result + 1) * 256) * 256 ^ n =
      ap (λ p. (result + 1) * p) (pow-succ' 256 n) ∙ sym (mul_assoc (result + 1) 256 (256 ^ n)) in
    let least : (result + 1) * 256 * 1 ≤ (result + 1) * 256 * 256 ^ n =
      mul-le-mul_left ((result + 1) * 256) (one-le-pow n 256 (omega arith)) in
    let fewer : (result * 256 + byte + 1) * 256 ^ n ≤ (result + 1) * 256 * 256 ^ n =
      mul-le-mul_right (256 ^ n) (omega arith) in
    let whole : u64 (result * 256) ≡ result * 256 = omega arith in
    (
      ap (λ x. x + byte) whole,
      subst (λ x. (x + byte + 1) * 256 ^ n ≤ 2 ^ 64) (sym whole) (omega arith),
    )

absorb : (r b n m : ℕ) → (r * 256 + b) * 256 ^ n + m ≡ r * 256 ^ suc n + (b * 256 ^ n + m)
absorb r b n m = omega (
  arith,
  add-mul (r * 256) b (256 ^ n),
  mul_assoc r 256 (256 ^ n),
  ap (λ p. r * p) (pow-succ' 256 n),
)

big_loop-number :
    (n i start result : ℕ) (f : CanFrame)
    → length f.bytes ≡ 8
    → All (λ b. b < 256) f.bytes
    → start + i + n ≤ f.dlc
    → f.dlc ≤ 8
    → (result + 1) * 256 ^ n ≤ 2 ^ 64
    → big_loop n i f start result ≡ some (result * 256 ^ n + big_number f.bytes (start + i) n)
unfolding big_loop big_number
big_loop-number zero i start result f eight small fits dlc room = ap some (omega arith)
big_loop-number (suc n) i start result f eight small fits dlc room =
    let byte = get_or f.bytes (start + i) 0 in
    let (sum, left) = push-room n result byte room (get_or-small f.bytes (start + i) small) in
    let within : ltb (start + i) f.dlc ≡ true = ground arith in
    rw (within, big_loop)
      (rw (get_elem-get_or f.bytes (start + i) (omega arith), big_loop)
        (big_loop-number n (suc i) start (push result byte) f eight small (omega arith) dlc left
          ∙ ap some (
              ap (λ k. push result byte * 256 ^ n + big_number f.bytes k n) (the_index start i)
              ∙ ap (λ r. r * 256 ^ n + big_number f.bytes (suc (start + i)) n) sum
              ∙ absorb result byte n (big_number f.bytes (suc (start + i)) n))))
  where
    the_index : (a b : ℕ) → a + suc b ≡ suc (a + b)
    the_index a b = omega arith

-- The loop starts at the last byte, which is the most significant one.
little_step :
    (bytes : List ℕ) (start n : ℕ)
    → little_number bytes start (suc n)
      ≡ get_or bytes (start + n) 0 * 256 ^ n + little_number bytes start n
unfolding little_number
little_step bytes start zero = ground arith
little_step bytes start (suc n) =
    let next = little_step bytes (suc start) n in
    let place : get_or bytes (suc start + n) 0 ≡ get_or bytes (start + suc n) 0 =
      ap (λ k. get_or bytes k 0) (omega arith) in
    let high : get_or bytes (start + suc n) 0 * 256 ^ suc n
        ≡ 256 * (get_or bytes (start + suc n) 0 * 256 ^ n) =
      shift (get_or bytes (start + suc n) 0) n in
    let next' = next ∙ ap (λ g. g * 256 ^ n + little_number bytes (suc start) n) place in
    omega (arith, next', high)
  where
    shift : (g n : ℕ) → g * 256 ^ suc n ≡ 256 * (g * 256 ^ n)
    shift g n =
        ap (λ p. g * p) (pow-succ' 256 n)
        ∙ omega (arith, mul_assoc g 256 (256 ^ n), mul_assoc 256 g (256 ^ n))

no_bytes : (bytes : List ℕ) (start : ℕ) → little_number bytes start 0 ≡ 0
unfolding little_number
no_bytes bytes start = refl

little_loop-number :
    (n start result : ℕ) (f : CanFrame)
    → length f.bytes ≡ 8
    → All (λ b. b < 256) f.bytes
    → start + n ≤ f.dlc
    → f.dlc ≤ 8
    → (result + 1) * 256 ^ n ≤ 2 ^ 64
    → little_loop n f start result ≡ some (result * 256 ^ n + little_number f.bytes start n)
unfolding little_loop
little_loop-number zero start result f eight small fits dlc room =
    ap some (omega (arith, no_bytes f.bytes start))
little_loop-number (suc n) start result f eight small fits dlc room =
    let byte = get_or f.bytes (start + n) 0 in
    let (sum, left) = push-room n result byte room (get_or-small f.bytes (start + n) small) in
    let same : u8 (start + n) ≡ start + n = omega arith in
    let within : ltb (start + n) f.dlc ≡ true = ground arith in
    rw (same, within, little_loop)
      (rw (get_elem-get_or f.bytes (start + n) (omega arith), little_loop)
        (little_loop-number n start (push result byte) f eight small (omega arith) dlc left
          ∙ ap some (
              ap (λ r. r * 256 ^ n + little_number f.bytes start n) sum
              ∙ absorb result byte n (little_number f.bytes start n)
              ∙ ap (λ m. result * 256 ^ suc n + m) (sym (little_step f.bytes start n)))))

-- The number that a signal's bytes make up, in its byte order.
abbrev pub number_of : CanFrame → CanSignalDef → ℕ
number_of f s =
    if s.is_big_endian
    then big_number f.bytes s.start_byte (bytes_needed s.length_bits)
    else little_number f.bytes s.start_byte (bytes_needed s.length_bits)

load_bytes-number :
    (f : CanFrame) (s : CanSignalDef)
    → IsPayload f.bytes
    → f.dlc ≤ 8
    → s.length_bits ≤ 64
    → s.start_byte + bytes_needed s.length_bits ≤ f.dlc
    → load_bytes f s ≡ some (number_of f s)
unfolding load_bytes
load_bytes-number f s p dlc len fits =
    let n = bytes_needed s.length_bits in
    let count : n ≤ 8 = omega arith in
    let room : (0 + 1) * 256 ^ n ≤ 2 ^ 64 =
      omega (arith, pow-le-pow_right {n = 256} (omega arith) count) in
    let at_start : s.start_byte + 0 + n ≤ f.dlc = omega (arith, fits) in
    let same : s.start_byte + 0 ≡ s.start_byte = omega arith in
    elim (Bool-cases s.is_big_endian) [
      | inl big ↦
          rw (big, load_bytes)
            (big_loop-number n 0 s.start_byte 0 f p.count p.small at_start dlc room
              ∙ ap some (no_start (256 ^ n) _ ∙ ap (λ k. big_number f.bytes k n) same))
      | inr little ↦
          rw (little, load_bytes)
            (little_loop-number n s.start_byte 0 f p.count p.small fits dlc room
              ∙ ap some (no_start (256 ^ n) _))
    ]
  where
    no_start : (p m : ℕ) → 0 * p + m ≡ m
    no_start p m = omega arith

-- A signal of 1 to 63 bits whose bytes lie within the length of a frame of at most eight bytes is
-- the number that these bytes make up in its byte order, shifted by the start bit and cut to its
-- length.
pub extract_raw_value-number :
    (f : CanFrame) (s : CanSignalDef)
    → IsPayload f.bytes
    → f.dlc ≤ 8
    → 1 ≤ s.length_bits
    → s.length_bits < 64
    → s.start_bit < 8
    → s.start_byte + bytes_needed s.length_bits ≤ f.dlc
    → extract_raw_value f s ≡ some (number_of f s / 2 ^ s.start_bit % 2 ^ s.length_bits)
unfolding extract_raw_value mask_raw
extract_raw_value-number f s p dlc least most bit fits =
    let inside : leb f.dlc s.start_byte ≡ false = ground arith in
    let sized : (s.length_bits == 0 || ltb 64 s.length_bits) ≡ false = ground arith in
    let in_byte : leb 8 s.start_bit ≡ false = ground arith in
    let few : (ltb 8 (bytes_needed s.length_bits)
          || ltb (255 - bytes_needed s.length_bits) s.start_byte)
        ≡ false =
      ground arith in
    let short : (s.length_bits == 64) ≡ false = ground arith in
    rw (inside, sized, in_byte, few, extract_raw_value)
      (rw (load_bytes-number f s p dlc (omega arith) fits, mask_raw) (rw (short, mask_raw) refl))
