-- ===== src/Obd/TroubleReads.antt =====
-- What the trouble codes of a response are, and when reading them leaves the frame.
use rpi_speeduino_dashboard.Common.{
  ℕ, zero, suc, ◌≤◌, ◌<◌, ◌≡◌, refl, Bool, true, false, ◌&&◌, none, some, List, [], ◌∷◌, arith, ltb,
  ◌==◌, if◌then◌else◌, min, Bool-cases, inl, inr, subst,
}
use rpi_speeduino_dashboard.Obd.Codes.{Dtc, from_bytes}
use rpi_speeduino_dashboard.Obd.Trouble.{read_codes, dtc_list, parse_dtcs, parse_pending}

-- The codes in two pairs of bytes, as many as the count says, and none for two zero bytes.
abbrev pub code_of : Bool → ℕ → ℕ → List Dtc → List Dtc
code_of pending high low rest =
    if high == 0 && low == 0
    then rest
    else record (from_bytes high low) { is_pending = pending } ∷ rest

abbrev pub codes_of : Bool → (count b3 b4 b5 b6 : ℕ) → List Dtc
codes_of pending zero b3 b4 b5 b6 = []
codes_of pending (suc zero) b3 b4 b5 b6 = code_of pending b3 b4 []
codes_of pending (suc (suc n)) b3 b4 b5 b6 = code_of pending b3 b4 (code_of pending b5 b6 [])

read_codes_lem :
    (pending : Bool) (n b0 b1 b2 b3 b4 b5 b6 b7 : ℕ)
    → let bytes = b0 ∷ b1 ∷ b2 ∷ b3 ∷ b4 ∷ b5 ∷ b6 ∷ b7 ∷ [] in
      n < 3 → read_codes pending bytes n 0 ≡ some (codes_of pending n b3 b4 b5 b6)
unfolding read_codes
read_codes_lem pending zero b0 b1 b2 b3 b4 b5 b6 b7 h = refl
read_codes_lem pending (suc zero) b0 b1 b2 b3 b4 b5 b6 b7 h = refl
read_codes_lem pending (suc (suc zero)) b0 b1 b2 b3 b4 b5 b6 b7 h = refl
read_codes_lem pending (suc (suc (suc n))) b0 b1 b2 b3 b4 b5 b6 b7 h = absurd (omega arith)

read_codes-outside :
    (pending : Bool) (b0 b1 b2 b3 b4 b5 b6 b7 : ℕ)
    → let bytes = b0 ∷ b1 ∷ b2 ∷ b3 ∷ b4 ∷ b5 ∷ b6 ∷ b7 ∷ [] in read_codes pending bytes 3 0 ≡ none
unfolding read_codes
read_codes-outside pending b0 b1 b2 b3 b4 b5 b6 b7 = refl

-- The pairs that the loop of a response reads: all of them, or `none` where it leaves the frame.
read_counted :
    (pending : Bool) (b0 b1 b2 b3 b4 b5 b6 b7 : ℕ)
    → read_codes pending (b0 ∷ b1 ∷ b2 ∷ b3 ∷ b4 ∷ b5 ∷ b6 ∷ b7 ∷ []) (min b2 3) 0
      ≡ (if ltb b2 3 then some (codes_of pending b2 b3 b4 b5 b6) else none)
read_counted pending b0 b1 b2 b3 b4 b5 b6 b7 = elim (Bool-cases (ltb b2 3)) [
  | inl few ↦ rw few (
      subst
        (λ n.
          read_codes pending (b0 ∷ b1 ∷ b2 ∷ b3 ∷ b4 ∷ b5 ∷ b6 ∷ b7 ∷ []) n 0
          ≡ some (codes_of pending b2 b3 b4 b5 b6))
        (smaller (ground arith)) (read_codes_lem pending b2 b0 b1 b2 b3 b4 b5 b6 b7 (ground arith)))
  | inr many ↦ rw many (
      subst (λ n. read_codes pending (b0 ∷ b1 ∷ b2 ∷ b3 ∷ b4 ∷ b5 ∷ b6 ∷ b7 ∷ []) n 0 ≡ none)
        (larger (ground arith)) (read_codes-outside pending b0 b1 b2 b3 b4 b5 b6 b7))
]
  where
    smaller : b2 < 3 → b2 ≡ min b2 3
    smaller h = omega arith

    larger : 3 ≤ b2 → 3 ≡ min b2 3
    larger h = omega arith

-- A response to a request for the confirmed codes that counts at most two of them gives these, read
-- from the byte pairs 3, 4 and 5, 6 with a pair of zeros left out, and the lamp is on exactly if it
-- counts any; if it counts three or more, the third is read from the bytes 7 and 8, and the frame
-- has no byte 8.
parse_dtcs-count :
    (b0 b2 b3 b4 b5 b6 b7 : ℕ)
    → parse_dtcs (b0 ∷ 0x43 ∷ b2 ∷ b3 ∷ b4 ∷ b5 ∷ b6 ∷ b7 ∷ []) ≡ (
        if ltb b2 3
        then some (record {
          confirmed = codes_of false b2 b3 b4 b5 b6;
          pending = [];
          mil_on = ltb 0 b2;
          dtc_count = b2;
        })
        else none)
unfolding parse_dtcs
parse_dtcs-count b0 b2 b3 b4 b5 b6 b7 =
    rw (read_counted false b0 0x43 b2 b3 b4 b5 b6 b7) (split (ltb b2 3))
  where
    split :
        (t : Bool)
        → dtc_list b2 (if t then some (codes_of false b2 b3 b4 b5 b6) else none)
          ≡ (if t then dtc_list b2 (some (codes_of false b2 b3 b4 b5 b6)) else none)
    split true = refl
    split false = refl

-- A response to a request for the pending codes gives them in the same way, marked as pending, and
-- again reads outside the frame if it counts three or more.
parse_pending-count :
    (b0 b2 b3 b4 b5 b6 b7 : ℕ)
    → parse_pending (b0 ∷ 0x47 ∷ b2 ∷ b3 ∷ b4 ∷ b5 ∷ b6 ∷ b7 ∷ [])
      ≡ (if ltb b2 3 then some (codes_of true b2 b3 b4 b5 b6) else none)
unfolding parse_pending
parse_pending-count b0 b2 b3 b4 b5 b6 b7 = read_counted true b0 0x47 b2 b3 b4 b5 b6 b7
