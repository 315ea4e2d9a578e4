-- ===== src/Wideband/Forwarder.antt =====
-- `WidebandForwarder` of src/can_service/src/wideband_forwarder.cpp and its header. The
-- value of a `float` is a ratio; what the code computes with it is a parameter.
use rpi_speeduino_dashboard.Common.{
  ℕ, ◌+◌, ◌-◌, ◌*◌, ◌/◌, ◌%◌, Bool, true, false, not, ◌&&◌, List, [], ◌∷◌, if◌then◌else◌, ltb, u8,
  u16, u32,
}
use rpi_speeduino_dashboard.Common.Int.{pos, Ratio, ltb_ℤ, scale_ℤ}
use rpi_speeduino_dashboard.Bus.{CanFrame, make_frame}

pub data WidebandFormat : Type 0 where
  aem_xseries : WidebandFormat
  innovate_lc2 : WidebandFormat
  plx_sm_afr : WidebandFormat
  spartan_14point7 : WidebandFormat

unfoldable pub default_id : WidebandFormat → ℕ
default_id aem_xseries = 0x180
default_id innovate_lc2 = 0x190
default_id plx_sm_afr = 0x181
default_id spartan_14point7 = 0x182

-- `handed` holds the frames that the interface was given, the last one first.
pub record Forwarder : Type 0 where
  pub format : WidebandFormat
  pub can_id : ℕ
  pub rate_hz : ℕ
  pub enabled : Bool
  pub lambda : Ratio
  pub o2_millivolts : ℕ
  pub sensor_status : ℕ
  pub heater_status : ℕ
  pub running : Bool
  pub frames_sent : ℕ
  pub frames_failed : ℕ
  pub handed : List CanFrame

unfoldable pub new_forwarder : Forwarder
new_forwarder = record {
  format = aem_xseries;
  can_id = 0x180;
  rate_hz = 20;
  enabled = false;
  lambda = record { num = pos 1; den = 1 };
  o2_millivolts = 450;
  sensor_status = 0;
  heater_status = 0;
  running = false;
  frames_sent = 0;
  frames_failed = 0;
  handed = [];
}

unfoldable pub set_format : WidebandFormat → Forwarder → Forwarder
set_format format w = record w { format = format; can_id = default_id format }

unfoldable pub set_rate : ℕ → Forwarder → Forwarder
set_rate rate_hz w = record w {
  rate_hz = (if ltb rate_hz 1 then 1 else if ltb 50 rate_hz then 50 else rate_hz);
}

unfoldable pub stop : Forwarder → Forwarder
stop w = record w { running = false }

unfoldable pub set_enabled : Bool → Forwarder → Forwarder
set_enabled enabled w =
    let set : Forwarder = record w { enabled = enabled } in
    if not enabled && w.running then stop set else set

-- The thread is started unless it runs already.
unfoldable pub start : Forwarder → Forwarder × Bool
start w = if w.running then (w, false) else (record w { running = true }, true)

-- From 0.5 to 2.0.
unfoldable pub clamp_lambda : Ratio → Ratio
clamp_lambda r =
    if ltb_ℤ (scale_ℤ 2 r.num) (pos r.den)
    then record { num = pos 1; den = 2 }
    else if ltb_ℤ (pos (2 * r.den)) r.num
    then record { num = pos 2; den = 1 }
    else r

unfoldable pub set_lambda : Ratio → Forwarder → Forwarder
set_lambda lambda w = record w { lambda = clamp_lambda lambda }

-- `quotient` is the division of a `float` by 14.7, the ratio of gasoline.
unfoldable pub set_afr : (Ratio → Ratio) → Ratio → Forwarder → Forwarder
set_afr quotient afr w = set_lambda (quotient afr) w

-- The word for k times lambda: `product k lambda` is what the products in `float` come to, cut to a
-- whole number.
unfoldable pub scaled_word : (ℕ → Ratio → ℕ) → ℕ → Ratio → ℕ
scaled_word product k r = u16 (product k r)

abbrev pub high : ℕ → ℕ
high word = word / 256 % 256

abbrev pub low : ℕ → ℕ
low word = word % 256

module _ (product : ℕ → Ratio → ℕ) where
  unfoldable pub build_aem_frame : Forwarder → CanFrame
  build_aem_frame w =
      let lambda = scaled_word product 10000 w.lambda in
      make_frame w.can_id 8 (
        high lambda
        ∷ low lambda
        ∷ high w.o2_millivolts
        ∷ low w.o2_millivolts
        ∷ w.sensor_status
        ∷ w.heater_status
        ∷ 0
        ∷ 0
        ∷ [])

  -- The air-fuel ratio times 10 is lambda times 147; 100 - heater status is taken modulo 256.
  unfoldable pub build_innovate_frame : Forwarder → CanFrame
  build_innovate_frame w =
      let afr = scaled_word product 147 w.lambda in
      let lambda = scaled_word product 1000 w.lambda in
      make_frame w.can_id 8 (
        high afr
        ∷ low afr
        ∷ high lambda
        ∷ low lambda
        ∷ u8 (100 + 256 - w.heater_status)
        ∷ w.sensor_status
        ∷ 0
        ∷ 0
        ∷ [])

  unfoldable pub build_plx_frame : Forwarder → CanFrame
  build_plx_frame w =
      let afr = scaled_word product 1470 w.lambda in
      make_frame w.can_id 8 (low afr ∷ high afr ∷ w.sensor_status ∷ 0 ∷ 0 ∷ 0 ∷ 0 ∷ 0 ∷ [])

  unfoldable pub build_spartan_frame : Forwarder → CanFrame
  build_spartan_frame w =
      let lambda = scaled_word product 1000 w.lambda in
      make_frame w.can_id 8 (
        high lambda
        ∷ low lambda
        ∷ high w.o2_millivolts
        ∷ low w.o2_millivolts
        ∷ 128
        ∷ w.heater_status
        ∷ w.sensor_status
        ∷ 0
        ∷ [])

  unfoldable pub build_of : WidebandFormat → Forwarder → CanFrame
  build_of aem_xseries w = build_aem_frame w
  build_of innovate_lc2 w = build_innovate_frame w
  build_of plx_sm_afr w = build_plx_frame w
  build_of spartan_14point7 w = build_spartan_frame w

  unfoldable pub build_frame : Forwarder → CanFrame
  build_frame w = build_of w.format w

-- What the interface answers may depend on the frames that it was given before.
module _ (product : ℕ → Ratio → ℕ) (answer : List CanFrame → CanFrame → Bool) where
  unfoldable pub send_now : Forwarder → Forwarder × Bool
  send_now w =
      let frame = build_frame product w in
      let given : Forwarder = record w { handed = frame ∷ w.handed } in
      if not w.enabled
      then (w, false)
      else if answer w.handed frame
      then (record given { frames_sent = u32 (w.frames_sent + 1) }, true)
      else (record given { frames_failed = u32 (w.frames_failed + 1) }, false)

  -- The rounds of the thread that was started at a rate: the time that each takes, in microseconds,
  -- and what other threads do to the members in it; the sleeps, and the members at the end.
  unfoldable pub transmit : ℕ → List (ℕ × (Forwarder → Forwarder)) → Forwarder → List ℕ × Forwarder
  transmit rate_hz [] w = ([], w)
  transmit rate_hz ((elapsed, change) ∷ rounds) w =
      let sent = if w.enabled then (send_now w).0 else w in
      let (sleeps, left) = transmit rate_hz rounds (change sent) in
      ((1000000 / rate_hz - elapsed) ∷ sleeps, left)
