-- ===== src/Cluster/Counts.antt =====
-- Every frame that the cluster simulator hands on is whole and counted.
use rpi_speeduino_dashboard.Common.{
  arith, ℕ, ◌+◌, ◌%◌, ◌<◌, ◌≡◌, refl, Bool, true, false, List, [], ◌∷◌, All, length, if◌then◌else◌,
  if-elim, u32,
}
use rpi_speeduino_dashboard.Bus.{CanFrame, make_frame, IsPayload}
use rpi_speeduino_dashboard.Cluster.State.{
  BmwGear, park, reverse, neutral, drive, gear_1, gear_2, gear_3, gear_4, gear_5, gear_6, manual,
  gear_code, Settings, Cluster,
}
use rpi_speeduino_dashboard.Cluster.Frames.{
  hand, asc_status, asc1_frame, egs_frame, sas_frame, abs_frame, send_asc1, send_egs, send_sas,
  send_abs,
}
use rpi_speeduino_dashboard.Cluster.Ticks.{
  Round, tick_asc, tick_egs, tick_sas, tick_abs, tick, transmit_loop,
}

abbrev pub IsFrame : CanFrame → Type 0
IsFrame f = (f.dlc ≡ 8) × IsPayload f.bytes

pub record IsSound (c : Cluster) : Type 0 where
  pub whole : All IsFrame c.handed
  pub counted : u32 (c.frames_sent + c.frames_failed) ≡ u32 (length c.handed)

gear_code-small : (g : BmwGear) → gear_code g < 256
unfolding gear_code
gear_code-small park = omega arith
gear_code-small reverse = omega arith
gear_code-small neutral = omega arith
gear_code-small drive = omega arith
gear_code-small gear_1 = omega arith
gear_code-small gear_2 = omega arith
gear_code-small gear_3 = omega arith
gear_code-small gear_4 = omega arith
gear_code-small gear_5 = omega arith
gear_code-small gear_6 = omega arith
gear_code-small manual = omega arith

asc_status-small : (s : Settings) → asc_status s < 256
unfolding asc_status
asc_status-small s = ground arith

-- A frame of five bytes and three zeros.
make_frame-IsFrame :
    (id a b c d e : ℕ)
    → a < 256
    → b < 256
    → c < 256
    → d < 256
    → e < 256
    → IsFrame (make_frame id 8 (a ∷ b ∷ c ∷ d ∷ e ∷ 0 ∷ 0 ∷ 0 ∷ []))
unfolding make_frame
make_frame-IsFrame id a b c d e ha hb hc hd he = (
  refl,
  record {
    count = refl;
    small = (ha, (hb, (hc, (hd, (he, (omega arith, (omega arith, (omega arith, tt))))))));
  },
)

low_byte-small : (w : ℕ) → w % 256 < 256
low_byte-small w = omega arith

flag-small : (b : Bool) → (if b then 0x01 else 0x00) < 256
flag-small b = ground arith

asc1_frame-IsFrame : (c : Cluster) → IsFrame (asc1_frame c)
unfolding asc1_frame
asc1_frame-IsFrame c =
    make_frame-IsFrame _ _ _ _ _ _ (asc_status-small c.settings) (low_byte-small c.tick_counter)
      (omega arith) (omega arith) (omega arith)

egs_frame-IsFrame : (c : Cluster) → IsFrame (egs_frame c)
unfolding egs_frame
egs_frame-IsFrame c =
    make_frame-IsFrame _ _ _ _ _ _ (gear_code-small _) (flag-small _) (gear_code-small _)
      (low_byte-small _) (omega arith)

sas_frame-IsFrame : (c : Cluster) → IsFrame (sas_frame c)
unfolding sas_frame
sas_frame-IsFrame c =
    make_frame-IsFrame _ _ _ _ _ _ (low_byte-small _) (low_byte-small _) (low_byte-small _)
      (low_byte-small _) (omega arith)

abs_frame-IsFrame : (id left right : ℕ) → IsFrame (abs_frame id left right)
unfolding abs_frame
abs_frame-IsFrame id left right =
    make_frame-IsFrame _ _ _ _ _ _ (low_byte-small _) (low_byte-small _) (low_byte-small _)
      (low_byte-small _) (omega arith)

if-IsSound : (b : Bool) (c c' : Cluster) → IsSound c' → IsSound c → IsSound (if b then c' else c)
if-IsSound true c c' s' s = s'
if-IsSound false c c' s' s = s

module _ (answer : List CanFrame → CanFrame → Bool) where
  hand-IsSound : (f : CanFrame) (c : Cluster) → IsFrame f → IsSound c → IsSound (hand answer f c)
  unfolding hand
  hand-IsSound f c w s =
      if-elim IsSound (answer c.handed f)
        (λ e. record { whole = (w, s.whole); counted = omega (arith, s.counted) })
        (λ e. record { whole = (w, s.whole); counted = omega (arith, s.counted) })

  tick_asc-IsSound : (c : Cluster) → IsSound c → IsSound (tick_asc answer c)
  unfolding tick_asc send_asc1
  tick_asc-IsSound c s = if-IsSound _ c _ (hand-IsSound _ c (asc1_frame-IsFrame c) s) s

  tick_egs-IsSound : (c : Cluster) → IsSound c → IsSound (tick_egs answer c)
  unfolding tick_egs send_egs
  tick_egs-IsSound c s = if-IsSound _ c _ (hand-IsSound _ c (egs_frame-IsFrame c) s) s

  tick_sas-IsSound : (c : Cluster) → IsSound c → IsSound (tick_sas answer c)
  unfolding tick_sas send_sas
  tick_sas-IsSound c s = if-IsSound _ c _ (hand-IsSound _ c (sas_frame-IsFrame c) s) s

  tick_abs-IsSound : (c : Cluster) → IsSound c → IsSound (tick_abs answer c)
  unfolding tick_abs send_abs
  tick_abs-IsSound c s =
      if-IsSound _ c _
        (hand-IsSound _ _ (abs_frame-IsFrame _ _ _) (hand-IsSound _ c (abs_frame-IsFrame _ _ _) s))
        s

  tick-IsSound : (c : Cluster) → IsSound c → IsSound (tick answer c)
  unfolding tick
  tick-IsSound c s = tick_abs-IsSound _ (
      tick_sas-IsSound _
        (tick_egs-IsSound _ (tick_asc-IsSound _ (record { whole = s.whole; counted = s.counted }))))

-- Whatever the setters do between the rounds, and whatever the interface answers: every frame that
-- the loop hands on has the length 8 and eight bytes, and the numbers of sent and of failed
-- frames together are, modulo 2 ^ 32, the number of frames handed on.
pub transmit_loop-IsSound :
    (answer : List CanFrame → CanFrame → Bool) (rs : List Round) (c : Cluster)
    → IsSound c
    → IsSound (transmit_loop answer rs c).1
unfolding transmit_loop
transmit_loop-IsSound answer [] c s = s
transmit_loop-IsSound answer (r ∷ rs) c s =
    let next = tick-IsSound answer c s in
    transmit_loop-IsSound answer rs _ (record { whole = next.whole; counted = next.counted })
