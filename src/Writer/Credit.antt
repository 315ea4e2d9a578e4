-- ===== src/Writer/Credit.antt =====
-- What a token bucket can still grant, and that it does grant once it has refilled.
use rpi_speeduino_dashboard.Common.{
  ℕ, ◌+◌, ◌-◌, ◌*◌, ◌≤◌, ◌≡◌, ap, ◌∙◌, true, Bool, min, arith, if◌then◌else◌,
}
use native.Mathlib.Nat.{add-mul}
use rpi_speeduino_dashboard.Writer.Bucket.{Bucket, token, refill, try_consume}

-- The tokens that a bucket has at a time, in billionths.
abbrev pub credit : ℕ → Bucket → ℕ
credit now b = min b.max_tokens (b.tokens + (now - b.last_refill) * b.rate_hz)

pub elapsed_split : (a b c r : ℕ) → a ≤ b → b ≤ c → (c - a) * r ≡ (c - b) * r + (b - a) * r
elapsed_split a b c r h k =
    let split : c - a ≡ (c - b) + (b - a) = omega arith in
    ap (λ x. x * r) split ∙ add-mul (c - b) (b - a) r

-- The billionths that a grant costs.
abbrev pub cost : Bool → ℕ
cost granted = if granted then token else 0

pub try_consume-credit :
    (start now : ℕ) (b : Bucket)
    → b.last_refill ≤ start
    → start ≤ now
    → let (granted, left) = try_consume now b in
      (cost granted + credit now left ≤ credit start b + (now - start) * b.rate_hz)
      × (left.last_refill ≡ now)
      × (left.rate_hz ≡ b.rate_hz)
      × (left.max_tokens ≡ b.max_tokens)
unfolding try_consume refill
try_consume-credit start now b h k =
    let split = elapsed_split b.last_refill start now b.rate_hz h k in
    let no_time : now - now ≡ 0 = omega arith in
    let still = ap (λ x. x * b.rate_hz) no_time in ground arith

-- What a bucket can still grant grows no faster than its rate.
pub credit_later :
    (start now : ℕ) (b : Bucket)
    → b.last_refill ≤ start
    → start ≤ now
    → credit now b ≤ credit start b + (now - start) * b.rate_hz
credit_later start now b h k =
    let split = elapsed_split b.last_refill start now b.rate_hz h k in ground arith

-- A bucket whose limit is at least one token a second grants the next request as soon as the time
-- since the last attempt makes up for one token.
try_consume-refilled :
    (now : ℕ) (b : Bucket)
    → token ≤ b.max_tokens
    → token ≤ (now - b.last_refill) * b.rate_hz
    → (try_consume now b).0 ≡ true
unfolding try_consume refill
try_consume-refilled now b h k = ground arith
