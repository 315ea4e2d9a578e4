-- ===== src/Watchdog/Rounds.antt =====
-- What the rounds of the watchdog's thread do, and how long they sleep.
use rpi_speeduino_dashboard.Common.{
  arith, ℕ, zero, suc, ◌+◌, ◌-◌, ◌*◌, ◌≤◌, ◌≡◌, refl, ◌∙◌, min, Bool, true, false, List, [], ◌∷◌,
  All, sym, ap, String, subst, if◌then◌else◌, if-elim, ltb, u64,
}
use rpi_speeduino_dashboard.Watchdog.Notifier.{
  Notifier, notify, Check, is_healthy, beat, chunks, notify_loop,
}

abbrev pub sum : List ℕ → ℕ
sum [] = 0
sum (n ∷ ns) = n + sum ns

abbrev pub healthy_count : List (Check × ℕ) → ℕ
healthy_count [] = 0
healthy_count ((check, reads) ∷ rounds) = (if is_healthy check then 1 else 0) + healthy_count rounds

abbrev pub sick_count : List (Check × ℕ) → ℕ
sick_count [] = 0
sick_count ((check, reads) ∷ rounds) = (if is_healthy check then 0 else 1) + sick_count rounds

-- Reads enough for the whole interval.
abbrev pub IsFull : ℕ → Check × ℕ → Type 0
IsFull interval (check, reads) = interval ≤ 100000 * reads

-- The beats that systemd is told of in the healthy rounds, put before what it was told.
abbrev pub beats : List (Check × ℕ) → List String → List String
beats [] told = told
beats ((check, reads) ∷ rounds) told =
    beats rounds (if is_healthy check then "WATCHDOG=1" ∷ told else told)

-- A round's sleep: pieces of at most 100 milliseconds, the interval together.
abbrev pub IsSleep : ℕ → List ℕ → Type 0
IsSleep interval sleeps = All (λ s. s ≤ 100000) sleeps × (sum sleeps ≡ interval)

chunks-IsSleep :
    (reads remaining : ℕ) → remaining ≤ 100000 * reads → IsSleep remaining (chunks reads remaining)
unfolding chunks
chunks-IsSleep zero remaining h = (tt, omega arith)
chunks-IsSleep (suc reads) remaining h =
    let (small, whole) = chunks-IsSleep reads (remaining - min remaining 100000) (omega arith) in
    if-elim (IsSleep remaining) (ltb 0 remaining)
      (λ e. ((omega arith, small), omega (arith, whole))) (λ e. (tt, ground arith))

-- The second notifier comes from the first by so many notifications and skips, and systemd has been
-- told these messages.
abbrev pub IsAfter : Notifier → ℕ → ℕ → List String → Notifier → Type 0
IsAfter n sent skipped told m =
    (m.messages ≡ told)
    × (m.enabled ≡ n.enabled)
    × (m.interval ≡ n.interval)
    × (u64 m.notify_count ≡ u64 (n.notify_count + sent))
    × (u64 m.skip_count ≡ u64 (n.skip_count + skipped))

notify-IsAfter :
    (n : Notifier) → n.enabled ≡ true → IsAfter n 1 0 ("WATCHDOG=1" ∷ n.messages) (notify n)
unfolding notify
notify-IsAfter n on =
    if-elim (IsAfter n 1 0 ("WATCHDOG=1" ∷ n.messages)) n.enabled
      (λ e. (refl, refl, refl, omega arith, omega arith)) (λ e. grind arith)

branch-IsAfter :
    (healthy : Bool) (n : Notifier)
    → n.enabled ≡ true
    → IsAfter n
        (if healthy then 1 else 0)
        (if healthy then 0 else 1)
        (if healthy then "WATCHDOG=1" ∷ n.messages else n.messages)
        (if healthy then notify n else record n { skip_count = u64 (n.skip_count + 1) })
branch-IsAfter true n on = notify-IsAfter n on
branch-IsAfter false n on = (refl, refl, refl, omega arith, omega arith)

beat-IsAfter :
    (check : Check) (n : Notifier)
    → n.enabled ≡ true
    → IsAfter n
        (if is_healthy check then 1 else 0)
        (if is_healthy check then 0 else 1)
        (if is_healthy check then "WATCHDOG=1" ∷ n.messages else n.messages)
        (beat check n)
unfolding beat
beat-IsAfter check n on = branch-IsAfter (is_healthy check) n on

counted : (a b c x y : ℕ) → u64 b ≡ u64 (a + x) → u64 c ≡ u64 (b + y) → u64 c ≡ u64 (a + (x + y))
counted a b c x y h k = omega arith

-- While the watchdog is enabled and each round's sleep is not cut short by a stop: over any rounds,
-- each round with a healthy check tells systemd "WATCHDOG=1" once and counts it, and each other
-- round tells it nothing and counts as skipped, the counts modulo 2^64; and each round sleeps the interval, in pieces of at most 100 milliseconds.
pub notify_loop-counts :
    (rounds : List (Check × ℕ)) (n : Notifier)
    → n.enabled ≡ true
    → All (IsFull n.interval) rounds
    → let (sleeps, m) = notify_loop rounds n in
      IsAfter n (healthy_count rounds) (sick_count rounds) (beats rounds n.messages) m
      × All (IsSleep n.interval) sleeps
unfolding notify_loop
notify_loop-counts [] n on full = ((refl, refl, refl, omega arith, omega arith), tt)
notify_loop-counts ((check, reads) ∷ rounds) n on (enough, full) =
    let (told, same, width, sent, missed) = beat-IsAfter check n on in
    let ((told', same', width', sent', missed'), slept) =
      notify_loop-counts rounds (beat check n) (same ∙ on)
        (subst (λ i. All (IsFull i) rounds) (sym width) full) in
    (
      (
        told' ∙ ap (beats rounds) told,
        same' ∙ same,
        width' ∙ width,
        counted n.notify_count (beat check n).notify_count _ (if is_healthy check then 1 else 0)
            (healthy_count rounds) sent sent',
        counted n.skip_count (beat check n).skip_count _ (if is_healthy check then 0 else 1)
            (sick_count rounds) missed missed',
      ),
      (
        chunks-IsSleep reads n.interval enough,
        subst (λ i. All (IsSleep i) (notify_loop rounds (beat check n)).0) width slept,
      ),
    )
