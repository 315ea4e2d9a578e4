-- ===== src/Parser/Warnings.antt =====
-- The ranges of the engine data, and its warnings.
use rpi_speeduino_dashboard.Common.{
  arith, ℕ, ◌+◌, ◌*◌, ◌/◌, ◌%◌, ◌≤◌, ◌<◌, ◌≡◌, refl, ap, ◌∙◌, subst, Bool, true, false, ◌&&◌, ◌||◌,
  List, [], ◌∷◌, All, Option, none, String, if◌then◌else◌, if-elim, ltb,
}
use native.Mathlib.Nat.{div-le_of_le-mul}
use rpi_speeduino_dashboard.Common.Int.{ℤ, pos, negsuc, Ratio, pos_part, neg_part, ltb_ℤ, ◌≤ℤ◌}
use rpi_speeduino_dashboard.Parser.Engine.{
  is_active, EngineData, clamp_unsigned, clamp_signed, is_set, get_value, value_or_zero, flags_of,
  measured, update_engine_data,
}

cut-le : (max den n : ℕ) → n ≤ max * den → n / den ≤ max
cut-le max den n h = div-le_of_le-mul den (subst (λ m. n ≤ m) (omega arith) h)

clamp_unsigned-le : (max : ℕ) (r : Ratio) → clamp_unsigned max r ≤ max
unfolding clamp_unsigned
clamp_unsigned-le max r =
    if-elim (λ n. n ≤ max) (ltb_ℤ r.num (pos 0)) (λ e. omega arith)
      (λ e.
        if-elim (λ n. n ≤ max) (ltb_ℤ (pos (max * r.den)) r.num) (λ f. omega arith)
          (λ f. cut-le max r.den (pos_part r.num) (below r.num e f)))
  where
    below :
        (z : ℤ)
        → ltb_ℤ z (pos 0) ≡ false
        → ltb_ℤ (pos (max * r.den)) z ≡ false
        → pos_part z ≤ max * r.den
    below (pos n) e f = ground arith
    below (negsuc n) e f = omega arith

-- A number of w + 1 bits in two's complement, for max = 2 ^ w - 1.
abbrev pub IsSigned : ℕ → ℤ → Type 0
IsSigned max v = (negsuc max ≤ℤ v) × (v ≤ℤ pos max)

clamp_signed-IsSigned : (max : ℕ) (r : Ratio) → IsSigned max (clamp_signed max r)
unfolding clamp_signed
clamp_signed-IsSigned max r =
    if-elim (IsSigned max) (ltb ((max + 1) * r.den) (neg_part r.num))
      (λ e. (omega arith, omega arith))
      (λ e.
        if-elim (IsSigned max) (ltb_ℤ (pos (max * r.den)) r.num) (λ f. (omega arith, omega arith))
          (λ f.
            let above = cut-le max r.den (pos_part r.num) (below r.num f) in
            let under = cut-le (max + 1) r.den (neg_part r.num) (ground arith) in
            (ground (arith, above, under), ground (arith, above, under))))
  where
    below : (z : ℤ) → ltb_ℤ (pos (max * r.den)) z ≡ false → pos_part z ≤ max * r.den
    below (pos n) f = ground arith
    below (negsuc n) f = omega arith

abbrev words : EngineData → List ℕ
words d =
    d.rpm ∷ d.map_kpa ∷ d.lambda ∷ d.vehicle_speed ∷ d.fuel_pressure ∷ d.oil_pressure
    ∷ d.boost_target ∷ d.baro ∷ d.battery_voltage ∷ d.fuel_consumption ∷ d.pw1 ∷ d.pw2 ∷ d.pw3
    ∷ d.pw4 ∷ d.flags ∷ []

abbrev bytes : EngineData → List ℕ
bytes d =
    d.tps ∷ d.injector_duty ∷ d.gear ∷ d.fuel_load ∷ d.torque_indexed ∷ d.torque_indicated ∷ []

abbrev signed_words : EngineData → List ℤ
signed_words d = d.ignition_advance ∷ d.vvt_intake ∷ d.vvt_exhaust ∷ []

abbrev signed_bytes : EngineData → List ℤ
signed_bytes d = d.coolant_temp ∷ d.intake_temp ∷ d.oil_temp ∷ d.fuel_temp ∷ []

-- Each member fits its type.
pub record IsInRange (d : EngineData) : Type 0 where
  pub time : d.timestamp_ms ≤ 4294967295
  pub words : All (λ n. n ≤ 65535) (words d)
  pub bytes : All (λ n. n ≤ 255) (bytes d)
  pub signed_words : All (IsSigned 32767) (signed_words d)
  pub signed_bytes : All (IsSigned 127) (signed_bytes d)

abbrev pub one : Bool → ℕ
one b = if b then 1 else 0

one-le : (b : Bool) → one b ≤ 1
one-le true = omega arith
one-le false = omega arith

bit_one : (b : Bool) (mask : ℕ) → (if b then mask else 0) ≡ mask * one b
bit_one true mask = omega arith
bit_one false mask = omega arith

-- The digits of the flags.
digits :
    (a b c d e f g h i j k l : ℕ)
    → a ≤ 1
    → b ≤ 1
    → c ≤ 1
    → d ≤ 1
    → e ≤ 1
    → f ≤ 1
    → g ≤ 1
    → h ≤ 1
    → i ≤ 1
    → j ≤ 1
    → k ≤ 1
    → l ≤ 1
    → (n : ℕ)
    → n
      ≡ 4
        + 8 * a
        + 2 * b
        + 1 * c
        + 16 * d
        + 32 * e
        + 64 * f
        + 256 * g
        + 512 * h
        + 1024 * i
        + 2048 * j
        + 4096 * k
        + 8192 * l
    → (n / 2 % 2 ≡ b)
      × (n / 8 % 2 ≡ a)
      × (n / 4096 % 2 ≡ k)
      × (n / 8192 % 2 ≡ l)
      × (n ≤ 65535)
      × (n % 2 ≡ c)
digits a b c d e f g h i j k l ha hb hc hd he hf hg hh hi hj hk hl n s =
    (omega arith, omega arith, omega arith, omega arith, omega arith, omega arith)

flag_digits :
    (a b c d e f g h i j k l : Bool) (n : ℕ)
    → n
      ≡ 4
        + (if a then 8 else 0)
        + (if b then 2 else 0)
        + (if c then 1 else 0)
        + (if d then 16 else 0)
        + (if e then 32 else 0)
        + (if f then 64 else 0)
        + (if g then 256 else 0)
        + (if h then 512 else 0)
        + (if i then 1024 else 0)
        + (if j then 2048 else 0)
        + (if k then 4096 else 0)
        + (if l then 8192 else 0)
    → (n / 2 % 2 ≡ one b)
      × (n / 8 % 2 ≡ one a)
      × (n / 4096 % 2 ≡ one k)
      × (n / 8192 % 2 ≡ one l)
      × (n ≤ 65535)
      × (n % 2 ≡ one c)
flag_digits a b c d e f g h i j k l n s =
    digits (one a) (one b) (one c) (one d) (one e) (one f) (one g) (one h) (one i) (one j) (one k)
      (one l) (one-le a) (one-le b) (one-le c) (one-le d) (one-le e) (one-le f) (one-le g)
      (one-le h) (one-le i) (one-le j) (one-le k) (one-le l) n
      (omega (
        arith,
        s,
        bit_one a 8,
        bit_one b 2,
        bit_one c 1,
        bit_one d 16,
        bit_one e 32,
        bit_one f 64,
        bit_one g 256,
        bit_one h 512,
        bit_one i 1024,
        bit_one j 2048,
        bit_one k 4096,
        bit_one l 8192,
      ))

module _ (lookup : String → Option Ratio) where
  pub flags_of-digits :
      (d : EngineData)
      → (flags_of lookup d / 2 % 2
          ≡ one (ltb_ℤ (pos 105) d.coolant_temp || is_set (get_value lookup "overheat_flag")))
        × (flags_of lookup d / 8 % 2 ≡ one (ltb 0 d.rpm))
        × (flags_of lookup d / 4096 % 2 ≡ one (ltb 1000 d.rpm && ltb d.oil_pressure 100))
        × (flags_of lookup d / 8192 % 2
            ≡ one (ltb 0 d.rpm && (ltb 0 d.fuel_pressure && ltb d.fuel_pressure 200)))
        × (flags_of lookup d ≤ 65535)
        × (flags_of lookup d % 2
            ≡ one
                (is_set (get_value lookup "cel_flag") || is_set (get_value lookup "check_engine")))
  unfolding flags_of
  flags_of-digits d =
      flag_digits (ltb 0 d.rpm)
        (ltb_ℤ (pos 105) d.coolant_temp || is_set (get_value lookup "overheat_flag"))
        (is_set (get_value lookup "cel_flag") || is_set (get_value lookup "check_engine"))
        (is_set (get_value lookup "clutch_flag") || is_set (get_value lookup "clutch_switch"))
        (is_set (get_value lookup "brake_flag") || is_set (get_value lookup "brake_switch"))
        (is_set (get_value lookup "cruise_flag") || is_set (get_value lookup "cruise_active"))
        (is_active lookup "launch_soft") (is_active lookup "launch_hard")
        (is_active lookup "flat_shift_active") (is_active lookup "rev_limit_active")
        (ltb 1000 d.rpm && ltb d.oil_pressure 100)
        (ltb 0 d.rpm && (ltb 0 d.fuel_pressure && ltb d.fuel_pressure 200)) _ refl

  -- Whatever values the signals have: every member of the engine data fits the type that it has in
  -- the code, with the clamps before the conversions, and the time of 32 bits.
  pub update_engine_data-IsInRange :
      (now : ℕ) → now < 4294967296 → IsInRange (update_engine_data lookup now)
  unfolding update_engine_data measured
  update_engine_data-IsInRange now clock =
      let u = λ (r : Ratio). clamp_unsigned-le 65535 r in
      let b = λ (r : Ratio). clamp_unsigned-le 255 r in
      let s = λ (r : Ratio). clamp_signed-IsSigned 32767 r in
      let t = λ (r : Ratio). clamp_signed-IsSigned 127 r in
      let (hot, run, oil, fuel, small, light) = flags_of-digits (measured lookup now) in
      record {
        time = omega arith;
        words = (
          u _,
          (
            u _,
            (
              u _,
              (
                u _,
                (u _, (u _, (u _, (u _, (u _, (u _, (u _, (u _, (u _, (u _, (small, tt))))))))))),
              ),
            ),
          ),
        );
        bytes = (b _, (b _, (b _, (b _, (b _, (b _, tt))))));
        signed_words = (s _, (s _, (s _, tt)));
        signed_bytes = (t _, (t _, (t _, (t _, tt))));
      }

  unread_oil : (now : ℕ) → lookup "oil_pressure" ≡ none → (measured lookup now).oil_pressure ≡ 0
  unfolding measured get_value clamp_unsigned
  unread_oil now absent = ap (λ o. clamp_unsigned 65535 (value_or_zero o)) absent

  -- Without a valid signal for the oil pressure, the bit of low oil pressure is set whenever the engine
  -- turns faster than 1000 rpm.
  update_engine_data-oil :
      (now : ℕ)
      → lookup "oil_pressure" ≡ none
      → 1000 < (update_engine_data lookup now).rpm
      → (update_engine_data lookup now).flags / 4096 % 2 ≡ 1
  unfolding update_engine_data
  update_engine_data-oil now absent fast =
      let (hot, run, oil, fuel, small, light) = flags_of-digits (measured lookup now) in
      let unread = unread_oil now absent in oil ∙ ground (arith, unread, fast)
