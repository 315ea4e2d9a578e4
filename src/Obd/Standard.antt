-- ===== src/Obd/Standard.antt =====
-- The values of live data against the table of the standard ISO 15031-5.
use rpi_speeduino_dashboard.Common.{ℕ, ◌-◌, ◌*◌, ◌/◌, ◌%◌, ◌≤◌, ◌<◌, ◌^◌, ◌≡◌}
use rpi_speeduino_dashboard.Common.Int.{Ratio, sub_ℕ, scale_ℤ}
use rpi_speeduino_dashboard.Obd.LiveData.{decode_pid}

-- The value is the number in the data bytes, the higher byte first, times a factor, divided by a
-- divisor, less an offset.
pub record Scale : Type 0 where
  pub bytes : ℕ
  pub factor : ℕ
  pub divisor : ℕ
  pub offset : ℕ

abbrev pub scale : ℕ → ℕ → ℕ → ℕ → Scale
scale bytes factor divisor offset = record {
  bytes = bytes;
  factor = factor;
  divisor = divisor;
  offset = offset;
}

-- The ratio is the value of the number on the scale.
abbrev pub IsValue : Scale → ℕ → Ratio → Type 0
IsValue u raw r =
    scale_ℤ u.divisor r.num ≡ scale_ℤ r.den (sub_ℕ (raw * u.factor) (u.offset * u.divisor))

-- The scales of the standard.
pub data Standard (pid : ℕ) : Scale → Type 0 where
  load : pid ≡ 0x04 → Standard pid (scale 1 100 255 0)
  coolant : pid ≡ 0x05 → Standard pid (scale 1 1 1 40)
  short_trim : pid ≡ 0x06 → Standard pid (scale 1 100 128 100)
  long_trim : pid ≡ 0x07 → Standard pid (scale 1 100 128 100)
  fuel_pressure : pid ≡ 0x0a → Standard pid (scale 1 3 1 0)
  intake_pressure : pid ≡ 0x0b → Standard pid (scale 1 1 1 0)
  rpm : pid ≡ 0x0c → Standard pid (scale 2 1 4 0)
  speed : pid ≡ 0x0d → Standard pid (scale 1 1 1 0)
  timing : pid ≡ 0x0e → Standard pid (scale 1 1 2 64)
  intake : pid ≡ 0x0f → Standard pid (scale 1 1 1 40)
  air_flow : pid ≡ 0x10 → Standard pid (scale 2 1 100 0)
  throttle : pid ≡ 0x11 → Standard pid (scale 1 100 255 0)
  oxygen : pid ≡ 0x14 → Standard pid (scale 1 1 200 0)
  run_time : pid ≡ 0x1f → Standard pid (scale 2 1 1 0)
  distance : pid ≡ 0x21 → Standard pid (scale 2 1 1 0)
  fuel_level : pid ≡ 0x2f → Standard pid (scale 1 100 255 0)
  barometer : pid ≡ 0x33 → Standard pid (scale 1 1 1 0)
  voltage : pid ≡ 0x42 → Standard pid (scale 2 1 1000 0)
  ambient : pid ≡ 0x46 → Standard pid (scale 1 1 1 40)
  oil : pid ≡ 0x5c → Standard pid (scale 1 1 1 40)

-- The data bytes in which the vehicle sends a number.
abbrev pub first_byte : Scale → ℕ → ℕ
first_byte u raw = raw / 256 ^ (u.bytes - 1) % 256

abbrev pub second_byte : ℕ → ℕ
second_byte raw = raw % 256

abbrev Decodes : ℕ → Scale → Type 0
Decodes pid u =
    (raw len : ℕ)
    → raw < 256 ^ u.bytes
    → u.bytes ≤ len
    → IsValue u raw (decode_pid pid (first_byte u raw) (second_byte raw) len)
