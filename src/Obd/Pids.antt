-- ===== src/Obd/Pids.antt =====
-- What the search for supported PIDs finds, and that it ends.
use rpi_speeduino_dashboard.Common.{
  ℕ, zero, suc, ◌+◌, ◌-◌, ◌*◌, ◌/◌, ◌%◌, ◌^◌, ◌≤◌, ◌<◌, ◌≡◌, ◌≢◌, refl, sym, subst₂, ◌∙◌, inl, inr,
  false, ◌&&◌, ◌||◌, Option, none, some, List, [], ◌∷◌, All, All-append, arith, ltb, ◌==◌, get_or,
  u8, Bool-cases,
}
use rpi_speeduino_dashboard.Bus.{CanFrame}
use rpi_speeduino_dashboard.Obd.Request.{Obd, build_request}
use rpi_speeduino_dashboard.Obd.Exchange.{Exchange, Sleeps}
use rpi_speeduino_dashboard.Obd.Answers.{send_and_receive-Outcome}
use rpi_speeduino_dashboard.Obd.Supported.{
  Found, scan_bit, scan_byte, scan_bitmap, after_answer, query, get_supported_pids,
}

-- From the last range no further one is announced: a PID is at most 255.
scan_bit-last :
    (range byte byte_idx bit_idx : ℕ) (s : Found)
    → 224 ≤ range
    → s.next ≡ false
    → (scan_bit range byte byte_idx bit_idx s).next ≡ false
unfolding scan_bit
scan_bit-last range byte byte_idx bit_idx s h e = ground arith

scan_byte-last :
    (range byte byte_idx n : ℕ) (s : Found)
    → 224 ≤ range
    → s.next ≡ false
    → (scan_byte range byte byte_idx n s).next ≡ false
unfolding scan_byte
scan_byte-last range byte byte_idx zero s h e = e
scan_byte-last range byte byte_idx (suc n) s h e =
    scan_byte-last range byte byte_idx n _ h (scan_bit-last range byte byte_idx n s h e)

scan_bitmap-last :
    (range : ℕ) (f : CanFrame) (supported : List ℕ)
    → 224 ≤ range
    → (scan_bitmap range f supported).next ≡ false
unfolding scan_bitmap
scan_bitmap-last range f supported h = scan_byte-last range _ 3 8 _ h (
    scan_byte-last range _ 2 8 _ h
      (scan_byte-last range _ 1 8 _ h (scan_byte-last range _ 0 8 _ h refl)))

after_answer-total :
    (range : ℕ) (supported : List ℕ) (o : Obd) (rest : Found → Option (List ℕ × Obd))
    (a : Option CanFrame)
    → ((f : CanFrame) → range < 224 → rest (scan_bitmap range f supported) ≢ none)
    → after_answer range supported o rest a ≢ none
unfolding after_answer
after_answer-total range supported o rest none h = ground arith
after_answer-total range supported o rest (some f) h =
    ground (arith, h f, scan_bitmap-last range f supported)

query-total :
    (fuel n : ℕ) (x : ℕ → Exchange) (range : ℕ) (supported : List ℕ) (o : Obd)
    → ((m : ℕ) → Sleeps (x m))
    → range < 256
    → 256 ≤ range + fuel * 32
    → query fuel n x range supported o ≢ none
unfolding query
query-total zero n x range supported o s b h = absurd (omega arith)
query-total (suc fuel) n x range supported o s b h =
    let (a, o', e, _) = send_and_receive-Outcome (x n) (build_request o 0x01 range 0) 0 o (s n) in
    rw (e, query)
      (after_answer-total range supported o' _ a λ f low.
        query-total fuel (suc n) x (u8 (range + 0x20)) (scan_bitmap range f supported).supported o'
          s (omega arith) (omega arith))

-- The search for PIDs always comes back, if the rounds of each exchange take a millisecond: it makes
-- eight requests at most, although the range is a byte that never exceeds the limit of the loop.
pub get_supported_pids-total :
    (x : ℕ → Exchange) (o : Obd) → ((m : ℕ) → Sleeps (x m)) → get_supported_pids x o ≢ none
unfolding get_supported_pids
get_supported_pids-total x o s = query-total 8 0 x 0 [] o s (omega arith) (omega arith)

-- The bit of a PID in the response for a range.
abbrev pub Announced : ℕ → CanFrame → ℕ → Type 0
Announced range f p =
    get_or f.bytes (3 + (p - range - 1) / 8) 0 / 2 ^ (7 - (p - range - 1) % 8) % 2 ≡ 1

abbrev pub IsSound : ℕ → CanFrame → List ℕ → Type 0
IsSound range f ps = All (λ p. (range < p) × (p < range + 32) × Announced range f p) ps

Announced-pid :
    (range byte_idx bit_idx : ℕ) (f : CanFrame)
    → range + 32 < 256
    → byte_idx < 4
    → bit_idx < 8
    → get_or f.bytes (3 + byte_idx) 0 / 2 ^ bit_idx % 2 ≡ 1
    → Announced range f (u8 (range + byte_idx * 8 + (7 - bit_idx) + 1))
Announced-pid range byte_idx bit_idx f hr hb hi h =
    let p = u8 (range + byte_idx * 8 + (7 - bit_idx) + 1) in
    let at_byte : (p - range - 1) / 8 ≡ byte_idx = omega arith in
    let at_bit : 7 - (p - range - 1) % 8 ≡ bit_idx = omega arith in
    subst₂ (λ i j. get_or f.bytes (3 + i) 0 / 2 ^ j % 2 ≡ 1) (sym at_byte) (sym at_bit) h

scan_bit-IsSound :
    (range byte_idx bit_idx : ℕ) (f : CanFrame) (s : Found)
    → range + 32 < 256
    → byte_idx < 4
    → bit_idx < 8
    → IsSound range f s.supported
    → IsSound range f
        (scan_bit range (get_or f.bytes (3 + byte_idx) 0) byte_idx bit_idx s).supported
unfolding scan_bit
scan_bit-IsSound range byte_idx bit_idx f s hr hb hi v =
    let p = u8 (range + byte_idx * 8 + (7 - bit_idx) + 1) in
    elim (Bool-cases (get_or f.bytes (3 + byte_idx) 0 / 2 ^ bit_idx % 2 == 1)) [
      | inr clear ↦ rw clear v
      | inl set ↦ elim (Bool-cases (p == range + 0x20)) [
        | inl last ↦ rw (set, last) v
        | inr inner ↦
            rw (set, inner)
              (All-append _ s.supported (p ∷ []) v (
                (
                  omega arith,
                  ground arith,
                  Announced-pid range byte_idx bit_idx f hr hb hi (ground arith),
                ),
                tt,
              ))
      ]
    ]

scan_byte-IsSound :
    (range byte_idx n : ℕ) (f : CanFrame) (s : Found)
    → range + 32 < 256
    → byte_idx < 4
    → n ≤ 8
    → IsSound range f s.supported
    → IsSound range f (scan_byte range (get_or f.bytes (3 + byte_idx) 0) byte_idx n s).supported
unfolding scan_byte
scan_byte-IsSound range byte_idx zero f s hr hb hn v = v
scan_byte-IsSound range byte_idx (suc n) f s hr hb hn v =
    scan_byte-IsSound range byte_idx n f _ hr hb (omega arith)
      (scan_bit-IsSound range byte_idx n f s hr hb hn v)

scan_bit-next :
    (range byte byte_idx bit_idx : ℕ) (s : Found)
    → range + 32 < 256
    → byte_idx < 4
    → bit_idx < 8
    → (scan_bit range byte byte_idx bit_idx s).next
      ≡ (s.next || (byte_idx == 3 && (bit_idx == 0 && byte % 2 == 1)))
unfolding scan_bit
scan_bit-next range byte byte_idx zero s hr hb hi = ground arith
scan_bit-next range byte byte_idx (suc n) s hr hb hi = ground arith

scan_byte-next :
    (range byte byte_idx n : ℕ) (s : Found)
    → range + 32 < 256
    → byte_idx < 4
    → n ≤ 8
    → (scan_byte range byte byte_idx n s).next
      ≡ (s.next || (byte_idx == 3 && (ltb 0 n && byte % 2 == 1)))
unfolding scan_byte
scan_byte-next range byte byte_idx zero s hr hb hn = ground arith
scan_byte-next range byte byte_idx (suc zero) s hr hb hn =
    scan_bit-next range byte byte_idx 0 s hr hb hn
scan_byte-next range byte byte_idx (suc (suc n)) s hr hb hn =
    scan_byte-next range byte byte_idx (suc n) (scan_bit range byte byte_idx (suc n) s) hr hb
      (omega arith)
    ∙ rw (scan_bit-next range byte byte_idx (suc n) s hr hb hn) (ground arith)

-- For each range but the last, the PIDs read from a response lie strictly inside the range, each has
-- its bit set in the bitmap, and a next range is announced exactly when the last bit is set.
scan_bitmap-IsSound :
    (range : ℕ) (f : CanFrame)
    → range + 32 < 256
    → let found = scan_bitmap range f [] in
      IsSound range f found.supported × (found.next ≡ (get_or f.bytes 6 0 % 2 == 1))
unfolding scan_bitmap
scan_bitmap-IsSound range f h = (
  scan_byte-IsSound range 3 8 f _ h (omega arith) (omega arith) (
      scan_byte-IsSound range 2 8 f _ h (omega arith) (omega arith) (
        scan_byte-IsSound range 1 8 f _ h (omega arith) (omega arith)
          (scan_byte-IsSound range 0 8 f _ h (omega arith) (omega arith) tt))),
  rw
      (
        scan_byte-next range (get_or f.bytes 6 0) 3 8 _ h (omega arith) (omega arith),
        scan_byte-next range (get_or f.bytes 5 0) 2 8 _ h (omega arith) (omega arith),
        scan_byte-next range (get_or f.bytes 4 0) 1 8 _ h (omega arith) (omega arith),
        scan_byte-next range (get_or f.bytes 3 0) 0 8 _ h (omega arith) (omega arith),
      )
      refl,
)
