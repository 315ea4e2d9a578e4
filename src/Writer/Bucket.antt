-- ===== src/Writer/Bucket.antt =====
-- `TokenBucket` of src/can_service/src/can_writer.cpp. Times are nanoseconds of the steady clock, and
-- tokens are counted in billionths, so that a refill is exact.
use rpi_speeduino_dashboard.Common.{ℕ, ◌+◌, ◌-◌, ◌*◌, Bool, true, false, min, leb, if◌then◌else◌}

pub record Bucket : Type 0 where
  pub rate_hz : ℕ
  pub tokens : ℕ
  pub max_tokens : ℕ
  pub last_refill : ℕ

-- A token, in billionths.
abbrev pub token : ℕ
token = 1000000000

unfoldable pub new_bucket : ℕ → ℕ → Bucket
new_bucket now rate_hz = record {
  rate_hz = rate_hz;
  tokens = rate_hz * token;
  max_tokens = rate_hz * token;
  last_refill = now;
}

-- The first half of `tryConsume`. The steady clock does not run backwards.
unfoldable pub refill : ℕ → Bucket → Bucket
refill now b = record b {
  tokens = min b.max_tokens (b.tokens + (now - b.last_refill) * b.rate_hz);
  last_refill = now;
}

unfoldable pub try_consume : ℕ → Bucket → Bool × Bucket
try_consume now b =
    let full = refill now b in
    if leb token full.tokens
    then (true, record full { tokens = full.tokens - token })
    else (false, full)

unfoldable pub reset_bucket : ℕ → Bucket → Bucket
reset_bucket now b = record b { tokens = b.max_tokens; last_refill = now }
