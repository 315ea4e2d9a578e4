-- ===== src/Wideband/Encoding.antt =====
-- What a receiver reads from the frames of the forwarder.
use rpi_speeduino_dashboard.Common.{
  u16, arith, ℕ, ◌+◌, ◌*◌, ◌/◌, ◌%◌, ◌≤◌, ◌<◌, ◌≡◌, refl, sym, subst, Bool, true, false, not, List,
  ◌∷◌, get_or, if-elim,
}
use native.Mathlib.Nat.{mul-le-mul_left, le_of_mul-le-mul_left}
use rpi_speeduino_dashboard.Common.Int.{ℤ, pos, negsuc, Ratio, pos_part, ltb_ℤ, scale_ℤ}
use rpi_speeduino_dashboard.Bus.{CanFrame, make_frame}
use rpi_speeduino_dashboard.Wideband.Forwarder.{
  WidebandFormat, aem_xseries, innovate_lc2, plx_sm_afr, spartan_14point7, Forwarder, clamp_lambda,
  set_lambda, scaled_word, build_aem_frame, build_innovate_frame, build_plx_frame,
  build_spartan_frame, build_of, build_frame, send_now,
}

-- Lambda is given in ten thousandths or thousandths, or as a mass ratio, 14.7 times lambda, in
-- tenths or hundredths.
abbrev pub resolution : WidebandFormat → ℕ
resolution aem_xseries = 10000
resolution innovate_lc2 = 147
resolution plx_sm_afr = 1470
resolution spartan_14point7 = 1000

-- The first two bytes, the lower one first in the format of PLX alone.
abbrev pub reading : WidebandFormat → CanFrame → ℕ
reading aem_xseries f = 256 * get_or f.bytes 0 0 + get_or f.bytes 1 0
reading innovate_lc2 f = 256 * get_or f.bytes 0 0 + get_or f.bytes 1 0
reading plx_sm_afr f = get_or f.bytes 0 0 + 256 * get_or f.bytes 1 0
reading spartan_14point7 f = 256 * get_or f.bytes 0 0 + get_or f.bytes 1 0

-- n is k times the ratio, rounded down, but for a hundredth to either side.
abbrev pub IsNear : ℕ → Ratio → ℕ → Type 0
IsNear k r n =
    (r.den * (100 * n) ≤ r.den + 100 * (k * pos_part r.num))
    × (100 * (k * pos_part r.num) < r.den * (100 * n + 101))

-- The products in `float` of a lambda up to 2 and a number up to 10000 are at most 20000, where the
-- arithmetic of IEEE 754 in single precision errs by less than a hundredth.
abbrev pub IsFloat : (ℕ → Ratio → ℕ) → Type 0
IsFloat product =
    (k : ℕ) (r : Ratio)
    → k ≤ 10000
    → 0 < r.den
    → pos_part r.num ≤ 2 * r.den
    → IsNear k r (product k r)

record IsLambda (r : Ratio) : Type 0 where
  positive : 0 < r.den
  most : pos_part r.num ≤ 2 * r.den

clamp_lambda-IsLambda : (r : Ratio) → 0 < r.den → IsLambda (clamp_lambda r)
unfolding clamp_lambda
clamp_lambda-IsLambda r h =
    if-elim IsLambda (ltb_ℤ (scale_ℤ 2 r.num) (pos r.den))
      (λ e. record { positive = omega arith; most = omega arith })
      (λ e.
        if-elim IsLambda (ltb_ℤ (pos (2 * r.den)) r.num)
          (λ f. record { positive = omega arith; most = omega arith })
          (λ f. record { positive = h; most = below r.num f }))
  where
    below : (z : ℤ) → ltb_ℤ (pos (2 * r.den)) z ≡ false → pos_part z ≤ 2 * r.den
    below (pos n) f = ground arith
    below (negsuc n) f = omega arith

scaled_word-IsNear :
    (product : ℕ → Ratio → ℕ) (k : ℕ) (r : Ratio)
    → IsFloat product
    → k ≤ 10000
    → IsLambda r
    → IsNear k r (scaled_word product k r) × (scaled_word product k r < 65536)
unfolding scaled_word
scaled_word-IsNear product k r float small l =
    let n = product k r in
    let near : IsNear k r n = float k r small l.positive l.most in
    let bound : 100 * (k * pos_part r.num) ≤ r.den * (200 * k) =
      grind (arith, mul-le-mul_left k l.most) in
    let scaled : r.den * (100 * n) ≤ r.den * (200 * k + 1) = grind (arith, near.0, bound) in
    let most : 100 * n ≤ 200 * k + 1 = le_of_mul-le-mul_left scaled l.positive in
    let whole : u16 n ≡ n = omega (arith, most, small) in
    subst (λ m. IsNear k r m × (m < 65536)) (sym whole) (near, omega (arith, most, small))

word_bytes : (w : ℕ) → w < 65536 → 256 * (w / 256 % 256) + w % 256 ≡ w
word_bytes w h = omega arith

bytes_word : (w : ℕ) → w < 65536 → w % 256 + 256 * (w / 256 % 256) ≡ w
bytes_word w h = omega arith

build_of-reading :
    (product : ℕ → Ratio → ℕ) (format : WidebandFormat) (w : Forwarder)
    → IsFloat product
    → IsLambda w.lambda
    → IsNear (resolution format) w.lambda (reading format (build_of product format w))
unfolding build_of build_aem_frame build_innovate_frame build_plx_frame build_spartan_frame
    make_frame
build_of-reading product aem_xseries w float l =
    let (near, small) = scaled_word-IsNear product 10000 w.lambda float (omega arith) l in
    subst (IsNear 10000 w.lambda) (sym (word_bytes _ small)) near
build_of-reading product innovate_lc2 w float l =
    let (near, small) = scaled_word-IsNear product 147 w.lambda float (omega arith) l in
    subst (IsNear 147 w.lambda) (sym (word_bytes _ small)) near
build_of-reading product plx_sm_afr w float l =
    let (near, small) = scaled_word-IsNear product 1470 w.lambda float (omega arith) l in
    subst (IsNear 1470 w.lambda) (sym (bytes_word _ small)) near
build_of-reading product spartan_14point7 w float l =
    let (near, small) = scaled_word-IsNear product 1000 w.lambda float (omega arith) l in
    subst (IsNear 1000 w.lambda) (sym (word_bytes _ small)) near

build_of-id :
    (product : ℕ → Ratio → ℕ) (format : WidebandFormat) (w : Forwarder)
    → (build_of product format w).id ≡ w.can_id
unfolding build_of build_aem_frame build_innovate_frame build_plx_frame build_spartan_frame
    make_frame
build_of-id product aem_xseries w = refl
build_of-id product innovate_lc2 w = refl
build_of-id product plx_sm_afr w = refl
build_of-id product spartan_14point7 w = refl

send_now-handed :
    (product : ℕ → Ratio → ℕ) (answer : List CanFrame → CanFrame → Bool) (w : Forwarder)
    → w.enabled ≡ true
    → (send_now product answer w).0.handed ≡ build_of product w.format w ∷ w.handed
unfolding send_now build_frame
send_now-handed product answer w on =
    if-elim (λ (r : Forwarder × Bool). r.0.handed ≡ build_of product w.format w ∷ w.handed)
      (not w.enabled) (λ e. absurd (ground (arith, e, on)))
      (λ e.
        if-elim (λ (r : Forwarder × Bool). r.0.handed ≡ build_of product w.format w ∷ w.handed)
          (answer w.handed (build_of product w.format w)) (λ e. refl) (λ e. refl))

-- An enabled forwarder, in any of the four formats, after any lambda with a positive denominator was
-- set, if the products in `float` err by a hundredth at most: the next frame is handed to the
-- interface, whatever that answers, and its first two bytes, in the byte order of the format, are
-- the lambda cut to 0.5 and 2.0, in the unit of the format and rounded down, but for that error: they
-- exceed it by at most a hundredth of the unit, and fall short of it by less than 1.01 units.
pub send_now-reading :
    (product : ℕ → Ratio → ℕ) (answer : List CanFrame → CanFrame → Bool) (lambda : Ratio)
    (w : Forwarder)
    → IsFloat product
    → 0 < lambda.den
    → w.enabled ≡ true
    → (f : CanFrame) × ((send_now product answer (set_lambda lambda w)).0.handed ≡ f ∷ w.handed)
      × (f.id ≡ w.can_id)
      × IsNear (resolution w.format) (clamp_lambda lambda) (reading w.format f)
unfolding set_lambda
send_now-reading product answer lambda w float h on =
    let set : Forwarder = set_lambda lambda w in
    (
      build_of product w.format set,
      send_now-handed product answer set on,
      build_of-id product w.format set,
      build_of-reading product w.format set float (clamp_lambda-IsLambda lambda h),
    )
