-- ===== src/Cluster/Encoding.antt =====
-- What a receiver reads from the frames of the steering angle and of the wheel speeds.
use rpi_speeduino_dashboard.Common.{
  subst, arith, ℕ, ◌+◌, ◌-◌, ◌*◌, ◌/◌, ◌%◌, ◌≤◌, ◌<◌, ◌≡◌, refl, sym, ap, ◌∙◌, Bool, List, ◌∷◌,
  get_or, if◌then◌else◌, if-elim, ltb,
}
use rpi_speeduino_dashboard.Common.Int.{ℤ, pos, negsuc, ◌≤ℤ◌, scale_ℤ, ltb_ℤ}
use rpi_speeduino_dashboard.Bus.{CanFrame, make_frame}
use rpi_speeduino_dashboard.Cluster.State.{Cluster, clamp, set_steering_angle}
use rpi_speeduino_dashboard.Cluster.Frames.{
  word_of, wheel_word, sas_frame, abs_frame, send_sas, send_abs, abs1_id, abs2_id,
}
use rpi_speeduino_dashboard.Cluster.Rates.{hand-handed, hand-settings}

-- The two bytes at an offset, the lower one first.
abbrev pub word_at : ℕ → CanFrame → ℕ
word_at i f = get_or f.bytes i 0 + 256 * get_or f.bytes (i + 1) 0

-- A word of 16 bits in two's complement.
abbrev pub signed_word : ℕ → ℤ
signed_word w = if ltb w 32768 then pos w else negsuc (65535 - w)

bytes_of_word : (w : ℕ) → w < 65536 → w % 256 + 256 * (w / 256 % 256) ≡ w
bytes_of_word w h = omega arith

word_of-small : (v : ℤ) → word_of v < 65536
unfolding word_of
word_of-small (pos n) = omega arith
word_of-small (negsuc n) = omega arith

signed_word-word_of : (v : ℤ) → negsuc 32767 ≤ℤ v → v ≤ℤ pos 32767 → signed_word (word_of v) ≡ v
unfolding word_of
signed_word-word_of (pos n) l h =
    if-elim (λ r. r ≡ pos n) (ltb (n % 65536) 32768) (λ e. ap pos (omega arith))
      (λ e. absurd (ground arith))
signed_word-word_of (negsuc n) l h =
    if-elim (λ r. r ≡ negsuc n) (ltb (65535 - n % 65536) 32768) (λ e. absurd (ground arith))
      (λ e. ap negsuc (omega arith))

-- A signed number in the frame is read back.
signed_word-bytes :
    (v : ℤ)
    → negsuc 32767 ≤ℤ v
    → v ≤ℤ pos 32767
    → signed_word (word_of v % 256 + 256 * (word_of v / 256 % 256)) ≡ v
signed_word-bytes v l h =
    ap signed_word (bytes_of_word _ (word_of-small v)) ∙ signed_word-word_of v l h

clamp-within :
    (low high v : ℤ) → low ≤ℤ high → (low ≤ℤ clamp low high v) × (clamp low high v ≤ℤ high)
unfolding clamp
clamp-within low high v h =
    if-elim (λ r. (low ≤ℤ r) × (r ≤ℤ high)) (ltb_ℤ v low) (λ e. (omega arith, h))
      (λ e.
        if-elim (λ r. (low ≤ℤ r) × (r ≤ℤ high)) (ltb_ℤ high v) (λ f. (h, omega arith))
          (λ f. (ground arith, ground arith)))

scale_ℤ-within :
    (n : ℕ) (v : ℤ)
    → negsuc n ≤ℤ v
    → v ≤ℤ pos (n + 1)
    → (negsuc (10 * n + 9) ≤ℤ scale_ℤ 10 v) × (scale_ℤ 10 v ≤ℤ pos (10 * n + 10))
unfolding scale_ℤ
scale_ℤ-within n (pos m) l h = (ground arith, ground arith)
scale_ℤ-within n (negsuc m) l h = (ground arith, ground arith)

-- Whatever angle is set, and whatever the rate is: the next steering frame that is sent carries, in
-- tenths of a degree, that angle cut to 720 degrees to either side.
pub send_sas-angle :
    (answer : List CanFrame → CanFrame → Bool) (angle : ℤ) (c : Cluster)
    → (f : CanFrame) × ((send_sas answer
          (record c { settings = set_steering_angle angle c.settings })).handed
        ≡ f ∷ c.handed)
      × (signed_word (word_at 0 f) ≡ scale_ℤ 10 (clamp (negsuc 719) (pos 720) angle))
      × (negsuc 7199 ≤ℤ signed_word (word_at 0 f))
      × (signed_word (word_at 0 f) ≤ℤ pos 7200)
unfolding send_sas sas_frame make_frame set_steering_angle
send_sas-angle answer angle c =
    let (al, ah) = clamp-within (negsuc 719) (pos 720) angle (omega arith) in
    let (sl, sh) = scale_ℤ-within 719 _ al ah in
    let read =
      signed_word-bytes (scale_ℤ 10 (clamp (negsuc 719) (pos 720) angle)) (omega (arith, sl))
        (omega (arith, sh)) in
    (
      _,
      hand-handed answer _ _,
      read,
      subst (λ v. negsuc 7199 ≤ℤ v) (sym read) sl,
      subst (λ v. v ≤ℤ pos 7200) (sym read) sh,
    )

-- When the rate is at most 3276 degrees per second to either side, the next steering frame that is sent
-- carries ten times the rate in its second word.
pub send_sas-rate :
    (answer : List CanFrame → CanFrame → Bool) (c : Cluster)
    → negsuc 3275 ≤ℤ c.settings.steering_rate
    → c.settings.steering_rate ≤ℤ pos 3276
    → (f : CanFrame) × ((send_sas answer c).handed ≡ f ∷ c.handed)
      × (signed_word (word_at 2 f) ≡ scale_ℤ 10 c.settings.steering_rate)
unfolding send_sas sas_frame make_frame
send_sas-rate answer c l h =
    let (rl, rh) = scale_ℤ-within 3275 _ l h in
    (
      _,
      hand-handed answer _ _,
      signed_word-bytes (scale_ℤ 10 c.settings.steering_rate) (omega (arith, rl))
          (omega (arith, rh)),
    )

-- A word w that counts sixteenths stands for a speed in tenths, rounded down.
pub IsRounded : ℕ → ℕ → Type 0
IsRounded speed w = (10 * w ≤ 16 * speed) × (16 * speed < 10 * w + 10)

wheel_word-IsRounded : (speed : ℕ) → speed ≤ 40959 → IsRounded speed (wheel_word speed)
unfolding wheel_word IsRounded
wheel_word-IsRounded speed h = (omega arith, omega arith)

wheel_word-small : (speed : ℕ) → wheel_word speed < 65536
unfolding wheel_word
wheel_word-small speed = omega arith

abs_frame-words :
    (id left right : ℕ)
    → left ≤ 40959
    → right ≤ 40959
    → IsRounded left (word_at 0 (abs_frame id left right))
      × IsRounded right (word_at 2 (abs_frame id left right))
unfolding abs_frame make_frame
abs_frame-words id left right l r = (
  subst (IsRounded left) (sym (bytes_of_word _ (wheel_word-small left)))
      (wheel_word-IsRounded left l),
  subst (IsRounded right) (sym (bytes_of_word _ (wheel_word-small right)))
      (wheel_word-IsRounded right r),
)

-- When all four wheels turn at most 4095.9 km/h, the two frames that are sent carry the speeds of
-- the front and of the rear wheels, the left one first, rounded down to a sixteenth of a km/h.
pub send_abs-words :
    (answer : List CanFrame → CanFrame → Bool) (c : Cluster)
    → c.settings.wheel_speed_fl ≤ 40959
    → c.settings.wheel_speed_fr ≤ 40959
    → c.settings.wheel_speed_rl ≤ 40959
    → c.settings.wheel_speed_rr ≤ 40959
    → (front : CanFrame) × (rear : CanFrame) × ((send_abs answer c).handed
        ≡ rear ∷ front ∷ c.handed)
      × (front.id ≡ abs1_id)
      × (rear.id ≡ abs2_id)
      × IsRounded c.settings.wheel_speed_fl (word_at 0 front)
      × IsRounded c.settings.wheel_speed_fr (word_at 2 front)
      × IsRounded c.settings.wheel_speed_rl (word_at 0 rear)
      × IsRounded c.settings.wheel_speed_rr (word_at 2 rear)
unfolding send_abs abs_frame make_frame
send_abs-words answer c fl fr rl rr =
    let front : CanFrame = abs_frame abs1_id c.settings.wheel_speed_fl c.settings.wheel_speed_fr in
    let rear : CanFrame = abs_frame abs2_id c.settings.wheel_speed_rl c.settings.wheel_speed_rr in
    let (wfl, wfr) = abs_frame-words abs1_id _ _ fl fr in
    let (wrl, wrr) = abs_frame-words abs2_id _ _ rl rr in
    (
      front,
      rear,
      hand-handed answer _ _ ∙ rw (hand-settings answer front c, hand-handed answer front c) refl,
      refl,
      refl,
      wfl,
      wfr,
      wrl,
      wrr,
    )
