-- ===== src/Writer/Safety.antt =====
-- What reaches the bus through `send`, and that the statistics agree with the results.
use rpi_speeduino_dashboard.Common.{
  ℕ, zero, suc, ◌+◌, ◌^◌, ◌≤◌, ◌<◌, ◌≡◌, refl, sym, ap, ◌∙◌, subst, inl, inr, Bool, true, false,
  ◌||◌, Option, none, some, List, [], ◌∷◌, length, All, arith, ltb, if◌then◌else◌, u32, Bool-cases,
  Option-cases,
}
use rpi_speeduino_dashboard.Common.Maps.{find, is_some}
use rpi_speeduino_dashboard.Bus.{CanFrame, make_frame}
use rpi_speeduino_dashboard.Writer.Bucket.{Bucket, try_consume}
use rpi_speeduino_dashboard.Writer.Commands.{
  SendResult, ok, blocked, rate_limited, can_error, invalid, Writer, Command, is_allowed, copy,
  write, pass_limit, send, send_command, run, results,
}

-- A frame whose identifier is on the whitelist, with a length in range and eight bytes.
pub record IsPermitted (whitelist : List (ℕ × ℕ)) (f : CanFrame) : Type 0 where
  pub allowed : is_some (find f.id whitelist) ≡ true
  pub dlc_fits : f.dlc ≤ 8
  pub eight : length f.bytes ≡ 8

length-copy : (n : ℕ) (source target : List ℕ) → length (copy n source target) ≡ length target
unfolding copy
length-copy zero source target = refl
length-copy (suc n) source [] = refl
length-copy (suc n) [] (a ∷ target) = refl
length-copy (suc n) (b ∷ source) (a ∷ target) = ap suc (length-copy n source target)

unfoldable pub same_result : SendResult → SendResult → Bool
same_result ok ok = true
same_result blocked blocked = true
same_result rate_limited rate_limited = true
same_result can_error can_error = true
same_result invalid invalid = true
same_result _ _ = false

abbrev pub one_if : Bool → ℕ
one_if b = if b then 1 else 0

-- What a call with the result `r` does to the writer, apart from the buckets.
record Counts (r : SendResult) (w v : Writer) : Type 0 where
  sent : v.sent_count ≡ (if same_result r ok then u32 (w.sent_count + 1) else w.sent_count)
  refused :
      v.blocked_count
      ≡ (if same_result r blocked then u32 (w.blocked_count + 1) else w.blocked_count)
  limited : v.rate_limited_count ≡ (
      if same_result r rate_limited then u32 (w.rate_limited_count + 1) else w.rate_limited_count)
  given : length v.handed ≡ length w.handed + one_if (same_result r ok || same_result r can_error)
  kept : v.whitelist ≡ w.whitelist
  clean : All (IsPermitted w.whitelist) w.handed → All (IsPermitted w.whitelist) v.handed

write-Counts :
    (id : ℕ) (bytes : List ℕ) (dlc : ℕ) (accepts : Bool) (limiters : List (ℕ × Bucket)) (w : Writer)
    → dlc ≤ 8
    → is_allowed id w ≡ true
    → let (r, v) = write id bytes dlc accepts (record w { rate_limiters = limiters }) in
      Counts r w v
unfolding write same_result make_frame is_allowed
write-Counts id bytes dlc true limiters w fits allowed = record {
  sent = refl;
  refused = refl;
  limited = refl;
  given = omega arith;
  kept = refl;
  clean =
      λ all. (record { allowed = allowed; dlc_fits = fits; eight = length-copy dlc bytes _ }, all);
}
write-Counts id bytes dlc false limiters w fits allowed = record {
  sent = refl;
  refused = refl;
  limited = refl;
  given = omega arith;
  kept = refl;
  clean =
      λ all. (record { allowed = allowed; dlc_fits = fits; eight = length-copy dlc bytes _ }, all);
}

pass_limit-Counts :
    (now id : ℕ) (bytes : List ℕ) (dlc : ℕ) (accepts : Bool) (w : Writer)
    → dlc ≤ 8
    → is_allowed id w ≡ true
    → let (r, v) = pass_limit now id bytes dlc accepts w in Counts r w v
unfolding pass_limit same_result
pass_limit-Counts now id bytes dlc accepts w fits allowed =
    elim (Option-cases (find id w.rate_limiters)) [
      | inl none_there ↦
          rw (none_there, pass_limit)
            (write-Counts id bytes dlc accepts w.rate_limiters w fits allowed)
      | inr (b, there) ↦
          rw (there, pass_limit)
            (elim (Bool-cases (try_consume now b).0) [
              | inl granted ↦ rw granted (write-Counts id bytes dlc accepts _ w fits allowed)
              | inr refused ↦ rw refused (record {
                sent = refl;
                refused = refl;
                limited = refl;
                given = omega arith;
                kept = refl;
                clean = λ all. all;
              })
            ])
    ]

-- A call that is invalid changes nothing.
invalid-Counts : (w : Writer) → Counts invalid w w
unfolding same_result
invalid-Counts w = record {
  sent = refl;
  refused = refl;
  limited = refl;
  given = omega arith;
  kept = refl;
  clean = λ all. all;
}

send-Counts :
    (now id : ℕ) (payload : Option (List ℕ)) (dlc : ℕ) (accepts : Bool) (w : Writer)
    → let (r, v) = send now id payload dlc accepts w in Counts r w v
unfolding send same_result
send-Counts now id none dlc accepts w = invalid-Counts w
send-Counts now id (some bytes) dlc accepts w = elim (Bool-cases (ltb 8 dlc)) [
  | inl long ↦ rw (long, send) (invalid-Counts w)
  | inr fits ↦ elim (Bool-cases (is_allowed id w)) [
    | inr refused ↦
        rw (fits, refused, send)
          (record {
            sent = refl;
            refused = refl;
            limited = refl;
            given = omega arith;
            kept = refl;
            clean = λ all. all;
          })
    | inl allowed ↦
        rw (fits, allowed, send)
          (pass_limit-Counts now id bytes dlc accepts w (ground arith) allowed)
  ]
]

-- Over any sequence of calls of `send`, whatever their arguments and the interface's answers: if all
-- frames handed to the interface so far were permitted, then all are afterwards, that is, each has
-- an identifier on the whitelist, a length of at most 8 and eight bytes; and the whitelist stays.
pub run-IsPermitted :
    (cs : List Command) (w : Writer)
    → All (IsPermitted w.whitelist) w.handed
    → All (IsPermitted w.whitelist) (run cs w).handed × ((run cs w).whitelist ≡ w.whitelist)
unfolding run
run-IsPermitted [] w all = (all, refl)
run-IsPermitted (c ∷ cs) w all =
    let s = send-Counts c.now c.id c.payload c.dlc c.accepts w in
    let next = (send_command c w).1 in
    let rest =
      run-IsPermitted cs next
        (subst (λ l. All (IsPermitted l) next.handed) (sym s.kept) (s.clean all)) in
    (subst (λ l. All (IsPermitted l) (run cs next).handed) s.kept rest.0, rest.1 ∙ s.kept)

-- How often a result occurs.
unfoldable pub tally : SendResult → List SendResult → ℕ
tally r [] = 0
tally r (q ∷ qs) = one_if (same_result q r) + tally r qs

bump :
    (a n : ℕ) (b : Bool)
    → a < 2 ^ 32
    → u32 ((if b then u32 (a + 1) else a) + n) ≡ u32 (a + (one_if b + n))
bump a n b h = ground arith

one_result :
    (r : SendResult)
    → one_if (same_result r ok || same_result r can_error)
      ≡ one_if (same_result r ok) + one_if (same_result r can_error)
unfolding same_result
one_result ok = refl
one_result blocked = refl
one_result rate_limited = refl
one_result can_error = refl
one_result invalid = refl

small : (a : ℕ) (b : Bool) → a < 2 ^ 32 → (if b then u32 (a + 1) else a) < 2 ^ 32
small a b h = ground arith

-- Over any sequence of calls of `send`, with counters below 2^32: the counters of sent, blocked and
-- rate-limited frames grow by the number of calls with these results, modulo 2^32, and the frames
-- handed to the interface are as many as the calls that succeed or fail on the bus.
run-tallies :
    (cs : List Command) (w : Writer)
    → w.sent_count < 2 ^ 32
    → w.blocked_count < 2 ^ 32
    → w.rate_limited_count < 2 ^ 32
    → ((run cs w).sent_count ≡ u32 (w.sent_count + tally ok (results cs w)))
      × ((run cs w).blocked_count ≡ u32 (w.blocked_count + tally blocked (results cs w)))
      × ((run cs w).rate_limited_count
          ≡ u32 (w.rate_limited_count + tally rate_limited (results cs w)))
      × (length (run cs w).handed
          ≡ length w.handed + tally ok (results cs w) + tally can_error (results cs w))
unfolding run results tally
run-tallies [] w hs hb hr = ground arith
run-tallies (c ∷ cs) w hs hb hr =
    let s = send-Counts c.now c.id c.payload c.dlc c.accepts w in
    let next = (send_command c w).1 in
    let r = (send_command c w).0 in
    let later = results cs next in
    let (sent, refused, limited, given) =
      run-tallies cs next
        (subst (λ n. n < 2 ^ 32) (sym s.sent) (small w.sent_count (same_result r ok) hs))
        (subst (λ n. n < 2 ^ 32) (sym s.refused) (small w.blocked_count (same_result r blocked) hb))
        (subst (λ n. n < 2 ^ 32) (sym s.limited)
          (small w.rate_limited_count (same_result r rate_limited) hr)) in
    (
      sent
          ∙ ap (λ n. u32 (n + tally ok later)) s.sent
          ∙ bump w.sent_count (tally ok later) (same_result r ok) hs,
      refused
          ∙ ap (λ n. u32 (n + tally blocked later)) s.refused
          ∙ bump w.blocked_count (tally blocked later) (same_result r blocked) hb,
      limited
          ∙ ap (λ n. u32 (n + tally rate_limited later)) s.limited
          ∙ bump w.rate_limited_count (tally rate_limited later) (same_result r rate_limited) hr,
      omega (arith, given, s.given, one_result r),
    )
