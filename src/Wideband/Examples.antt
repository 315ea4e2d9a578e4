-- ===== src/Wideband/Examples.antt =====
-- The forwarder at concrete values.
use rpi_speeduino_dashboard.Common.{
  arith, ℕ, ◌*◌, ◌/◌, ◌%◌, ◌<◌, ◌≡◌, refl, Bool, true, List, [], ◌∷◌,
}
use native.Mathlib.Nat.{mod-lt}
use native.Mathlib.Omega.{div_any}
use rpi_speeduino_dashboard.Common.Int.{pos, Ratio, pos_part}
use rpi_speeduino_dashboard.Bus.{CanFrame, make_frame}
use rpi_speeduino_dashboard.Wideband.Forwarder.{
  scaled_word, build_innovate_frame, innovate_lc2, plx_sm_afr, Forwarder, new_forwarder, set_format,
  set_enabled, set_rate, clamp_lambda, set_lambda, send_now,
}
use rpi_speeduino_dashboard.Wideband.Encoding.{
  resolution, reading, IsNear, IsFloat, send_now-reading,
}

-- An arithmetic without rounding.
abbrev exact : ℕ → Ratio → ℕ
exact k r = k * pos_part r.num / r.den

exact-IsFloat : IsFloat exact
exact-IsFloat k r small positive most =
    let parts = div_any (k * pos_part r.num) r.den in
    let rest : k * pos_part r.num % r.den < r.den = mod-lt (k * pos_part r.num) positive in
    (grind (arith, parts), grind (arith, parts, rest))

-- An interface that takes every frame.
abbrev open_bus : List CanFrame → CanFrame → Bool
open_bus fs f = true

abbrev plx : Forwarder
plx = set_enabled true (set_rate 80 (set_format plx_sm_afr new_forwarder))

plx_on : plx.enabled ≡ true
unfolding set_enabled set_rate set_format new_forwarder
plx_on = refl

plx_rate : plx.rate_hz ≡ 50
unfolding set_enabled set_rate set_format new_forwarder
plx_rate = refl

send_now-reading_example :
    (f : CanFrame) × ((send_now exact open_bus
        (set_lambda (record { num = pos 17; den = 20 }) plx)).0.handed
      ≡ f ∷ plx.handed)
    × (f.id ≡ plx.can_id)
    × IsNear
        (resolution plx.format)
        (clamp_lambda (record { num = pos 17; den = 20 }))
        (reading plx.format f)
send_now-reading_example =
    send_now-reading exact open_bus (record { num = pos 17; den = 20 }) plx exact-IsFloat
      (omega arith) plx_on

-- A heater status above 100 wraps in the warm-up byte of the format of Innovate.
warm_up :
    (build_innovate_frame exact
      (record (set_format innovate_lc2 new_forwarder) { heater_status = 101 })).bytes
    ≡ 0 ∷ 147 ∷ 3 ∷ 232 ∷ 255 ∷ 0 ∷ 0 ∷ 0 ∷ []
unfolding build_innovate_frame make_frame set_format new_forwarder scaled_word
warm_up = refl
