-- ===== src/Obd/Answers.antt =====
-- What an exchange returns, and that it ends.
use rpi_speeduino_dashboard.Common.{
  ℕ, zero, suc, ◌+◌, ◌*◌, ◌≤◌, ◌<◌, ◌≡◌, inl, inr, refl, sym, subst, ap, ◌∙◌, true, false, Option,
  none, some, arith, ltb, get_or, u32, Bool-cases, Option-cases,
}
use native.Mathlib.Nat.{add-zero, zero-add}
use rpi_speeduino_dashboard.Bus.{CanFrame}
use rpi_speeduino_dashboard.Obd.Request.{Obd}
use rpi_speeduino_dashboard.Obd.Exchange.{
  Exchange, is_answer, answer_of, await, accounted, effective_timeout, rounds, send_and_receive,
  Sleeps,
}

-- The rounds from the k-th up to the n-th: each looks at the clock in time, and no answer comes.
abbrev pub IsOpen : Exchange → ℕ → ℕ → ℕ → ℕ → Type 0
IsOpen x timeout_ms mode k n =
    (j : ℕ)
    → k ≤ j
    → j < n
    → (x.elapsed j ≤ timeout_ms * 1000000) × (answer_of mode (x.received j) ≡ none)

-- The loop from its k-th round on has not run out of fuel: the time ran out at round n, or round n
-- brought an answer in time, and the rounds before brought none.
abbrev IsDone : Exchange → ℕ → ℕ → ℕ → Option (Option CanFrame) → Type 0
IsDone x timeout_ms mode k none = ⊥
IsDone x timeout_ms mode k (some none) =
    (n : ℕ) × (timeout_ms * 1000000 < x.elapsed n) × IsOpen x timeout_ms mode k n
IsDone x timeout_ms mode k (some (some f)) =
    (n : ℕ) × (x.elapsed n ≤ timeout_ms * 1000000)
    × (answer_of mode (x.received n) ≡ some f)
    × IsOpen x timeout_ms mode k n

IsOpen-suc :
    (x : Exchange) (timeout_ms mode k n : ℕ)
    → x.elapsed k ≤ timeout_ms * 1000000
    → answer_of mode (x.received k) ≡ none
    → IsOpen x timeout_ms mode (suc k) n
    → IsOpen x timeout_ms mode k n
IsOpen-suc x timeout_ms mode k n early none_yet rest j from before = elim (Bool-cases (ltb k j)) [
  | inl later ↦ rest j (ground arith) before
  | inr now ↦
      let same : k ≡ j = ground arith in
      subst (λ i. (x.elapsed i ≤ timeout_ms * 1000000) × (answer_of mode (x.received i) ≡ none))
        same (early, none_yet)
]

IsDone-suc :
    (x : Exchange) (timeout_ms mode k : ℕ) (r : Option (Option CanFrame))
    → x.elapsed k ≤ timeout_ms * 1000000
    → answer_of mode (x.received k) ≡ none
    → IsDone x timeout_ms mode (suc k) r
    → IsDone x timeout_ms mode k r
IsDone-suc x timeout_ms mode k none early none_yet d = d
IsDone-suc x timeout_ms mode k (some none) early none_yet (n, late, rest) =
    (n, late, IsOpen-suc x timeout_ms mode k n early none_yet rest)
IsDone-suc x timeout_ms mode k (some (some f)) early none_yet (n, in_time, found, rest) =
    (n, in_time, found, IsOpen-suc x timeout_ms mode k n early none_yet rest)

await-IsDone :
    (fuel k : ℕ) (x : Exchange) (timeout_ms mode : ℕ)
    → Sleeps x
    → k ≤ timeout_ms + 1
    → timeout_ms + 1 < fuel + k
    → IsDone x timeout_ms mode k (await fuel k x timeout_ms mode)
unfolding await
await-IsDone zero k x timeout_ms mode s l h = absurd (omega arith)
await-IsDone (suc fuel) k x timeout_ms mode s l h =
    elim (Bool-cases (ltb (timeout_ms * 1000000) (x.elapsed k))) [
      | inl late ↦ rw late (k, ground arith, λ j from before. absurd (omega arith))
      | inr early ↦ elim (Option-cases (answer_of mode (x.received k))) [
        | inl none_yet ↦
            rw (early, none_yet)
              (IsDone-suc x timeout_ms mode k _ (ground arith) none_yet
                (await-IsDone fuel (suc k) x timeout_ms mode s (ground (arith, s k)) (omega arith)))
        | inr (f, found) ↦
            rw (early, found) (k, ground arith, found, λ j from before. absurd (omega arith))
      ]
    ]

-- The three ways in which an exchange can end.
pub data Outcome (x : Exchange) (timeout_ms mode : ℕ) (o : Obd)
    : Option CanFrame → Obd → Type 0 where
  unsent :
      {o' : Obd}
      → x.sent ≡ false
      → o' ≡ record o {
        request_count = u32 (o.request_count + 1);
        error_count = u32 (o.error_count + 1);
      }
      → Outcome x timeout_ms mode o none o'
  timed_out :
      {o' : Obd}
      → (n : ℕ) → x.sent ≡ true
      → timeout_ms * 1000000 < x.elapsed n
      → IsOpen x timeout_ms mode 0 n
      → o' ≡ record o {
        request_count = u32 (o.request_count + 1);
        timeout_count = u32 (o.timeout_count + 1);
      }
      → Outcome x timeout_ms mode o none o'
  answered :
      {o' : Obd}
      → (f : CanFrame) (n : ℕ) → x.sent ≡ true
      → x.elapsed n ≤ timeout_ms * 1000000
      → answer_of mode (x.received n) ≡ some f
      → IsOpen x timeout_ms mode 0 n
      → o' ≡ record o { request_count = u32 (o.request_count + 1) }
      → Outcome x timeout_ms mode o (some f) o'

-- The end of an exchange that was sent, from the end of its loop.
finished :
    (x : Exchange) (timeout_ms mode : ℕ) (o : Obd) (r : Option (Option CanFrame))
    → x.sent ≡ true
    → IsDone x timeout_ms mode 0 r
    → (a : Option CanFrame) × (o' : Obd) × (accounted
          (record o { request_count = u32 (o.request_count + 1) })
          r
        ≡ some (a, o'))
      × Outcome x timeout_ms mode o a o'
finished x timeout_ms mode o none s d = elim d [ ]
finished x timeout_ms mode o (some none) s (n, late, silent) =
    (_, _, refl, timed_out n s late silent refl)
finished x timeout_ms mode o (some (some f)) s (n, in_time, found, silent) =
    (_, _, refl, answered f n s in_time found silent refl)

-- An exchange whose rounds take a millisecond each always comes back, and in one of three ways: the
-- request could not be sent, which counts as an error; it was sent and a round came too late,
-- while each round before was in time and brought no frame of the ECU that answers the request's
-- mode, which counts as a timeout; or it was sent and the result is the first such frame, received
-- in time. Each counts as one request and changes nothing else.
pub send_and_receive-Outcome :
    (x : Exchange) (request : CanFrame) (timeout_ms : ℕ) (o : Obd)
    → Sleeps x
    → (a : Option CanFrame) × (o' : Obd) × (send_and_receive x request timeout_ms o ≡ some (a, o'))
      × Outcome x (effective_timeout timeout_ms o) (get_or request.bytes 1 0) o a o'
unfolding send_and_receive
send_and_receive-Outcome x request timeout_ms o s = elim (Bool-cases x.sent) [
  | inl sent ↦ simp sent (
      finished x (effective_timeout timeout_ms o) (get_or request.bytes 1 0) o _ sent (
        await-IsDone (rounds (effective_timeout timeout_ms o)) 0 x (effective_timeout timeout_ms o)
          (get_or request.bytes 1 0) s (omega arith) (omega arith)))
  | inr refused ↦ simp refused (_, _, refl, unsent refused refl)
]

await-first :
    (fuel k n : ℕ) (x : Exchange) (timeout_ms mode : ℕ) (f : CanFrame)
    → ((j : ℕ) → j ≤ k + n → x.elapsed j ≤ timeout_ms * 1000000)
    → ((j : ℕ) → j < k + n → answer_of mode (x.received j) ≡ none)
    → x.received (k + n) ≡ some f
    → is_answer mode f ≡ true
    → n < fuel
    → await fuel k x timeout_ms mode ≡ some (some f)
unfolding await
await-first zero k n x timeout_ms mode f t b e a h = absurd (omega arith)
await-first (suc fuel) k zero x timeout_ms mode f t b e a h =
    ground (arith, t k, ap x.received (add-zero k))
await-first (suc fuel) k (suc n) x timeout_ms mode f t b e a h =
    let shift : k + suc n ≡ suc k + n = omega arith in
    ground (
      arith,
      t k,
      b k,
      await-first fuel (suc k) n x timeout_ms mode f (λ j h. t j (omega arith))
          (λ j h. b j (omega arith)) (ap x.received (sym shift) ∙ e) a,
    )

-- The first answer is returned: if the request is sent, the n-th received frame answers it, no
-- earlier one does, and up to that round the time has not run out, then that frame is the result.
send_and_receive-first :
    (x : Exchange) (request : CanFrame) (timeout_ms n : ℕ) (o : Obd) (f : CanFrame)
    → Sleeps x
    → x.sent ≡ true
    → ((j : ℕ) → j ≤ n → x.elapsed j ≤ effective_timeout timeout_ms o * 1000000)
    → ((j : ℕ) → j < n → answer_of (get_or request.bytes 1 0) (x.received j) ≡ none)
    → x.received n ≡ some f
    → is_answer (get_or request.bytes 1 0) f ≡ true
    → send_and_receive x request timeout_ms o
      ≡ some (some f, record o { request_count = u32 (o.request_count + 1) })
unfolding send_and_receive
send_and_receive-first x request timeout_ms n o f s sent t b e a =
    let limit = effective_timeout timeout_ms o in
    let mode = get_or request.bytes 1 0 in
    simp (
      sent,
      await-first (rounds limit) 0 n x limit mode f (λ j h. t j (omega arith))
          (λ j h. b j (omega arith)) (ap x.received (zero-add n) ∙ e) a
          (omega (arith, s n, t n (omega arith))),
    )
