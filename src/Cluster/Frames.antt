-- ===== src/Cluster/Frames.antt =====
-- The frames of `BMWClusterSim`: `sendASC1`, `sendEGS`, `sendSAS` and `sendABS` of
-- src/can_service/src/bmw_cluster_sim.cpp.
use rpi_speeduino_dashboard.Common.{
  ℕ, ◌+◌, ◌-◌, ◌*◌, ◌/◌, ◌%◌, Bool, List, [], ◌∷◌, if◌then◌else◌, u16, u32,
}
use rpi_speeduino_dashboard.Common.Int.{ℤ, pos, negsuc, scale_ℤ}
use rpi_speeduino_dashboard.Bus.{CanFrame, make_frame}
use rpi_speeduino_dashboard.Cluster.State.{Settings, Cluster, gear_code}

abbrev pub asc1_id : ℕ
asc1_id = 0x153

abbrev pub egs_id : ℕ
egs_id = 0x43f

abbrev pub sas_id : ℕ
sas_id = 0x1d2

abbrev pub abs1_id : ℕ
abs1_id = 0x1f0

abbrev pub abs2_id : ℕ
abs2_id = 0x1f5

-- The 16 bits of a signed number in two's complement, after its conversion to `int16_t`.
unfoldable pub word_of : ℤ → ℕ
word_of (pos n) = u16 n
word_of (negsuc n) = 65535 - u16 n

abbrev pub low_byte : ℕ → ℕ
low_byte w = w % 256

abbrev pub high_byte : ℕ → ℕ
high_byte w = w / 256 % 256

-- A speed in tenths, converted to sixteenths.
unfoldable pub wheel_word : ℕ → ℕ
wheel_word speed = u16 (speed * 16 / 10)

unfoldable pub asc_status : Settings → ℕ
asc_status s =
    (if s.dsc_off then 0x01 else 0)
    + (if s.dsc_active then 0x02 else 0)
    + (if s.traction_active then 0x04 else 0)
    + (if s.abs_active then 0x08 else 0)

unfoldable pub asc1_frame : Cluster → CanFrame
asc1_frame c =
    make_frame asc1_id 8
      (asc_status c.settings ∷ low_byte c.tick_counter ∷ 0 ∷ 0 ∷ 0 ∷ 0 ∷ 0 ∷ 0 ∷ [])

unfoldable pub egs_frame : Cluster → CanFrame
egs_frame c =
    let gear = gear_code c.settings.gear in
    make_frame egs_id 8 (
      gear
      ∷ (if c.settings.sport_mode then 0x01 else 0x00)
      ∷ gear
      ∷ low_byte c.tick_counter
      ∷ 0
      ∷ 0
      ∷ 0
      ∷ 0
      ∷ [])

unfoldable pub sas_frame : Cluster → CanFrame
sas_frame c =
    let angle = word_of (scale_ℤ 10 c.settings.steering_angle) in
    let rate = word_of (scale_ℤ 10 c.settings.steering_rate) in
    make_frame sas_id 8
      (low_byte angle ∷ high_byte angle ∷ low_byte rate ∷ high_byte rate ∷ 0x03 ∷ 0 ∷ 0 ∷ 0 ∷ [])

-- The frame of an axle: the speeds of its left and right wheel.
unfoldable pub abs_frame : ℕ → ℕ → ℕ → CanFrame
abs_frame id left right =
    let l = wheel_word left in
    let r = wheel_word right in
    make_frame id 8 (low_byte l ∷ high_byte l ∷ low_byte r ∷ high_byte r ∷ 0x00 ∷ 0 ∷ 0 ∷ 0 ∷ [])

-- What the interface answers may depend on the frames that it was given before.
module _ (answer : List CanFrame → CanFrame → Bool) where
  unfoldable pub hand : CanFrame → Cluster → Cluster
  hand f c =
      let given : Cluster = record c { handed = f ∷ c.handed } in
      if answer c.handed f
      then record given { frames_sent = u32 (c.frames_sent + 1) }
      else record given { frames_failed = u32 (c.frames_failed + 1) }

  unfoldable pub send_asc1 : Cluster → Cluster
  send_asc1 c = hand (asc1_frame c) c

  unfoldable pub send_egs : Cluster → Cluster
  send_egs c = hand (egs_frame c) c

  unfoldable pub send_sas : Cluster → Cluster
  send_sas c = hand (sas_frame c) c

  unfoldable pub send_abs : Cluster → Cluster
  send_abs c =
      let front = hand (abs_frame abs1_id c.settings.wheel_speed_fl c.settings.wheel_speed_fr) c in
      hand (abs_frame abs2_id front.settings.wheel_speed_rl front.settings.wheel_speed_rr) front
