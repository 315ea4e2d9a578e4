-- ===== src/Parser/Thresholds.antt =====
-- The warnings of the engine data, by the values of the signals.
use rpi_speeduino_dashboard.Common.{
  arith, ℕ, suc, ◌+◌, ◌*◌, ◌/◌, ◌%◌, ◌≤◌, ◌<◌, ◌≡◌, refl, sym, ap, ◌∙◌, Bool, true, false, not,
  ◌&&◌, ◌||◌, Option, String, if-elim, ltb, inl, inr, Bool-cases,
}
use native.Mathlib.Nat.{div-lt_iff_lt-mul, mul-le-mul_right, zero-div}
use rpi_speeduino_dashboard.Common.Int.{ℤ, pos, negsuc, Ratio, ltb_ℤ, sub_ℕ}
use rpi_speeduino_dashboard.Parser.Engine.{
  clamp_unsigned, clamp_signed, is_set, get_value, measured, update_engine_data,
}
use rpi_speeduino_dashboard.Parser.Warnings.{one, flags_of-digits}

-- A value is at least n, or below n.
abbrev pub reaches : ℕ → Ratio → Bool
reaches n r = not (ltb_ℤ r.num (pos (n * r.den)))

abbrev pub is_below : ℕ → Ratio → Bool
is_below n r = ltb_ℤ r.num (pos (n * r.den))

above_cut : (n m d : ℕ) → 0 < d → ltb n (m / d) ≡ not (ltb m ((n + 1) * d))
above_cut n m d positive = elim (Bool-cases (ltb m ((n + 1) * d))) [
  | inl under ↦
      let cut : m / d < n + 1 = (div-lt_iff_lt-mul positive).1 (ground arith) in
      ground (arith, cut, under)
  | inr over ↦ elim (Bool-cases (ltb n (m / d))) [
    | inl more ↦ more ∙ sym (ap not over)
    | inr less ↦
        let small : m < (n + 1) * d = (div-lt_iff_lt-mul positive).0 (ground arith) in
        absurd (ground (arith, small, over))
  ]
]

above_clamp :
    (n max d : ℕ)
    → 0 < d
    → n < max
    → (z : ℤ)
    → ltb n (clamp_unsigned max (record { num = z; den = d })) ≡ not (ltb_ℤ z (pos ((n + 1) * d)))
unfolding clamp_unsigned
above_clamp n max d positive room (pos m) =
    if-elim (λ v. ltb n v ≡ not (ltb_ℤ (pos m) (pos ((n + 1) * d)))) (ltb_ℤ (pos m) (pos 0))
      (λ e. absurd (ground arith))
      (λ e.
        if-elim (λ v. ltb n v ≡ not (ltb_ℤ (pos m) (pos ((n + 1) * d))))
          (ltb_ℤ (pos (max * d)) (pos m))
          (λ f.
            let much : (n + 1) * d ≤ max * d = mul-le-mul_right d (omega arith) in
            ground (arith, much))
          (λ f. above_cut n m d positive ∙ ap not (ground arith)))
above_clamp n max d positive room (negsuc m) = ground arith

over_clamp :
    (n max : ℕ) (r : Ratio) → 0 < r.den → n < max → ltb n (clamp_unsigned max r) ≡ reaches (n + 1) r
over_clamp n max r positive room = above_clamp n max r.den positive room r.num

not-not : (b : Bool) → not (not b) ≡ b
not-not true = refl
not-not false = refl

below_clamp :
    (n max : ℕ) (r : Ratio)
    → 0 < r.den
    → n < max
    → ltb (clamp_unsigned max r) (n + 1) ≡ is_below (n + 1) r
below_clamp n max r positive room =
    let turned : ltb (clamp_unsigned max r) (n + 1) ≡ not (ltb n (clamp_unsigned max r)) =
      ground arith in
    turned ∙ ap not (over_clamp n max r positive room) ∙ not-not (is_below (n + 1) r)

cold : (b : ℕ) → ltb_ℤ (pos 105) (sub_ℕ 0 b) ≡ false
cold b = ground arith

warm : (a : ℕ) → ltb_ℤ (pos 105) (sub_ℕ a 0) ≡ ltb 105 a
warm a = ground arith

hot_clamp :
    (d : ℕ)
    → 0 < d
    → (z : ℤ)
    → ltb_ℤ (pos 105) (clamp_signed 127 (record { num = z; den = d }))
      ≡ not (ltb_ℤ z (pos (106 * d)))
unfolding clamp_signed
hot_clamp d positive (pos m) =
    let Hot : ℤ → Type 0 = λ v. ltb_ℤ (pos 105) v ≡ not (ltb_ℤ (pos m) (pos (106 * d))) in
    if-elim Hot (ltb (128 * d) 0) (λ e. absurd (ground arith))
      (λ e.
        if-elim Hot (ltb_ℤ (pos (127 * d)) (pos m)) (λ f. ground arith)
          (λ f.
            ap (λ b. ltb_ℤ (pos 105) (sub_ℕ (m / d) b)) (zero-div d)
            ∙ warm (m / d)
            ∙ above_cut 105 m d positive
            ∙ ap not (ground arith)))
hot_clamp d positive (negsuc m) =
    let Hot : ℤ → Type 0 = λ v. ltb_ℤ (pos 105) v ≡ not (ltb_ℤ (negsuc m) (pos (106 * d))) in
    if-elim Hot (ltb (128 * d) (suc m)) (λ e. ground arith)
      (λ e.
        if-elim Hot (ltb_ℤ (pos (127 * d)) (negsuc m)) (λ f. absurd (ground arith))
          (λ f.
            ap (λ a. ltb_ℤ (pos 105) (sub_ℕ a (suc m / d))) (zero-div d)
            ∙ cold (suc m / d)
            ∙ ground arith))

-- The values of the signals, 0 where there is none, as ratios: the overheat bit is set exactly when the
-- coolant is at 106 degrees or more or its own signal is above a half; the bit of low oil pressure
-- when the engine turns at 1001 rpm or more with less than 100 kPa; and that of low fuel pressure
-- when it turns at 1 rpm or more, with at least 1 and less than 200 kPa.
pub update_engine_data-warnings :
    (lookup : String → Option Ratio) (now : ℕ)
    → ((name : String) → 0 < (get_value lookup name).den)
    → ((update_engine_data lookup now).flags / 2 % 2
        ≡ one (
            reaches 106 (get_value lookup "coolant_temp")
            || is_set (get_value lookup "overheat_flag")))
      × ((update_engine_data lookup now).flags / 4096 % 2
          ≡ one (
              reaches 1001 (get_value lookup "rpm")
              && is_below 100 (get_value lookup "oil_pressure")))
      × ((update_engine_data lookup now).flags / 8192 % 2
          ≡ one (
              reaches 1 (get_value lookup "rpm")
              && (reaches 1 (get_value lookup "fuel_pressure")
                  && is_below 200 (get_value lookup "fuel_pressure"))))
unfolding update_engine_data measured
update_engine_data-warnings lookup now positive =
    let (hot, run, oil, fuel, small, light) = flags_of-digits lookup (measured lookup now) in
    let rpm = get_value lookup "rpm" in
    let pressure = get_value lookup "fuel_pressure" in
    (
      hot
          ∙ ap (λ b. one (b || is_set (get_value lookup "overheat_flag")))
              (hot_clamp _ (positive "coolant_temp") (get_value lookup "coolant_temp").num),
      oil
          ∙ ap (λ b. one (b && ltb (clamp_unsigned 65535 (get_value lookup "oil_pressure")) 100))
              (over_clamp 1000 65535 rpm (positive "rpm") (omega arith))
          ∙ ap (λ b. one (reaches 1001 rpm && b))
              (below_clamp 99 65535 (get_value lookup "oil_pressure") (positive "oil_pressure")
                (omega arith)),
      fuel
          ∙ ap
              (λ b. one (
                b
                && (ltb 0 (clamp_unsigned 65535 pressure)
                    && ltb (clamp_unsigned 65535 pressure) 200)))
              (over_clamp 0 65535 rpm (positive "rpm") (omega arith))
          ∙ ap (λ b. one (reaches 1 rpm && (b && ltb (clamp_unsigned 65535 pressure) 200)))
              (over_clamp 0 65535 pressure (positive "fuel_pressure") (omega arith))
          ∙ ap (λ b. one (reaches 1 rpm && (reaches 1 pressure && b)))
              (below_clamp 199 65535 pressure (positive "fuel_pressure") (omega arith)),
    )
