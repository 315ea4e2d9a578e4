-- ===== src/Writer/Rate.antt =====
-- The rate limit over any sequence of calls of `send`.
use rpi_speeduino_dashboard.Common.{
  ℕ, suc, ◌+◌, ◌-◌, ◌*◌, ◌≤◌, ◌≡◌, ◌≢◌, refl, ap, ◌∙◌, subst, inl, inr, Bool, Option, none, some,
  List, [], ◌∷◌, arith, ltb, ◌==◌, if◌then◌else◌, Bool-cases, ℕ-cases, Option-cases,
}
use rpi_speeduino_dashboard.Common.Maps.{find, put, find-put, find-put_other}
use rpi_speeduino_dashboard.Bus.{CanFrame, make_frame}
use rpi_speeduino_dashboard.Writer.Bucket.{Bucket, token, try_consume}
use rpi_speeduino_dashboard.Writer.Commands.{
  Writer, Command, write, pass_limit, send, send_command, is_allowed, run,
}
use rpi_speeduino_dashboard.Writer.Credit.{credit, try_consume-credit, credit_later, elapsed_split}

-- The frames of an identifier.
unfoldable pub count_for : ℕ → List CanFrame → ℕ
count_for id [] = 0
count_for id (f ∷ fs) = let rest = count_for id fs in if id == f.id then suc rest else rest

-- From the writer `w`, where an identifier has the bucket `b`, a call leads to `v`: the bucket keeps
-- its settings, and frames are paid for.
record Spends (id start now : ℕ) (b : Bucket) (w v : Writer) : Type 0 where
  after : Bucket
  found : find id v.rate_limiters ≡ some after
  same_rate : after.rate_hz ≡ b.rate_hz
  same_max : after.max_tokens ≡ b.max_tokens
  past : after.last_refill ≤ now
  spent :
      count_for id v.handed * token + credit now after
      ≤ count_for id w.handed * token + credit start b + (now - start) * b.rate_hz

module _ (id start now : ℕ) (b : Bucket) (w : Writer) (found : find id w.rate_limiters ≡ some b)
    (past : b.last_refill ≤ start) (later : start ≤ now) where
  -- A call that leaves the bucket and the frames of the identifier alone.
  Spends-nothing :
      (v : Writer)
      → find id v.rate_limiters ≡ find id w.rate_limiters
      → count_for id v.handed ≡ count_for id w.handed
      → Spends id start now b w v
  Spends-nothing v same none_handed = record {
    after = b;
    found = same ∙ found;
    same_rate = refl;
    same_max = refl;
    past = omega arith;
    spent = ground (arith, credit_later start now b past later);
  }

  -- A call that asks the bucket, and hands over a frame of the identifier if it grants that.
  Spends-cost :
      (v : Writer)
      → v.rate_limiters ≡ put id (try_consume now b).1 w.rate_limiters
      → count_for id v.handed
        ≡ (if (try_consume now b).0 then suc (count_for id w.handed) else count_for id w.handed)
      → Spends id start now b w v
  Spends-cost v charged handed =
      let (paid, at_now, rate, max) = try_consume-credit start now b past later in
      record {
        after = (try_consume now b).1;
        found = ap (find id) charged ∙ find-put id (try_consume now b).1 w.rate_limiters;
        same_rate = rate;
        same_max = max;
        past = omega arith;
        spent = elim (Bool-cases (try_consume now b).0) [
          | inl granted ↦ ground arith
          | inr refused ↦ ground arith
        ];
      }

  write-count :
      (bytes : List ℕ) (other dlc : ℕ) (accepts : Bool) (v : Writer)
      → count_for id (write other bytes dlc accepts v).1.handed
        ≡ (if id == other then suc (count_for id v.handed) else count_for id v.handed)
  unfolding write count_for make_frame
  write-count bytes other dlc accepts v = ground arith

  write-limiters :
      (bytes : List ℕ) (other dlc : ℕ) (accepts : Bool) (v : Writer)
      → (write other bytes dlc accepts v).1.rate_limiters ≡ v.rate_limiters
  unfolding write
  write-limiters bytes other dlc accepts v = ground arith

  pass_limit-own :
      (bytes : List ℕ) (dlc : ℕ) (accepts : Bool)
      → Spends id start now b w (pass_limit now id bytes dlc accepts w).1
  unfolding pass_limit
  pass_limit-own bytes dlc accepts =
      rw (found, pass_limit)
        (elim (Bool-cases (try_consume now b).0) [
          | inl granted ↦ rw granted (
              Spends-cost (write id bytes dlc accepts _).1 (write-limiters bytes id dlc accepts _)
                (rw granted (write-count bytes id dlc accepts _ ∙ ground arith)))
          | inr refused ↦ rw refused (Spends-cost _ refl (rw refused refl))
        ])

  pass_limit-other :
      (other : ℕ) (bytes : List ℕ) (dlc : ℕ) (accepts : Bool)
      → id ≢ other
      → Spends id start now b w (pass_limit now other bytes dlc accepts w).1
  unfolding pass_limit
  pass_limit-other other bytes dlc accepts differs =
      elim (Option-cases (find other w.rate_limiters)) [
        | inl none_there ↦
            rw (none_there, pass_limit)
              (Spends-nothing _ (ap (find id) (write-limiters bytes other dlc accepts w))
                (write-count bytes other dlc accepts w ∙ ground arith))
        | inr (b', there) ↦
            rw (there, pass_limit)
              (elim (Bool-cases (try_consume now b').0) [
                | inl granted ↦ rw granted (
                    Spends-nothing _
                      (ap (find id) (write-limiters bytes other dlc accepts _)
                        ∙ find-put_other id other _ _ differs)
                      (write-count bytes other dlc accepts _ ∙ ground arith))
                | inr refused ↦
                    rw refused (Spends-nothing _ (find-put_other id other _ _ differs) refl)
              ])
      ]

  send-Spends :
      (other : ℕ) (payload : Option (List ℕ)) (dlc : ℕ) (accepts : Bool)
      → Spends id start now b w (send now other payload dlc accepts w).1
  unfolding send
  send-Spends other none dlc accepts = Spends-nothing w refl refl
  send-Spends other (some bytes) dlc accepts = elim (Bool-cases (ltb 8 dlc)) [
    | inl long ↦ rw (long, send) (Spends-nothing w refl refl)
    | inr fits ↦ elim (Bool-cases (is_allowed other w)) [
      | inr refused ↦ rw (fits, refused, send) (Spends-nothing _ refl refl)
      | inl allowed ↦
          rw (fits, allowed, send)
            (elim (ℕ-cases id other) [
              | inl same ↦
                  subst (λ x. Spends id start now b w (pass_limit now x bytes dlc accepts w).1) same
                    (pass_limit-own bytes dlc accepts)
              | inr differs ↦ pass_limit-other other bytes dlc accepts differs
            ])
    ]
  ]

-- Calls at times that do not run backwards, from a start on.
abbrev pub IsOrdered : ℕ → List Command → Type 0
IsOrdered t [] = Unit
IsOrdered t (c ∷ cs) = (t ≤ c.now) × IsOrdered c.now cs

abbrev pub end_time : ℕ → List Command → ℕ
end_time t [] = t
end_time t (c ∷ cs) = end_time c.now cs

end_time_later : (t : ℕ) (cs : List Command) → IsOrdered t cs → t ≤ end_time t cs
end_time_later t [] h = omega arith
end_time_later t (c ∷ cs) h = omega (arith, h.0, end_time_later c.now cs h.1)

compose :
    (id start now end : ℕ) (b : Bucket) (w v u : Writer)
    → start ≤ now
    → now ≤ end
    → (s : Spends id start now b w v) → Spends id now end s.after v u
    → Spends id start end b w u
compose id start now end b w v u h k s t = record {
  after = t.after;
  found = t.found;
  same_rate = t.same_rate ∙ s.same_rate;
  same_max = t.same_max ∙ s.same_max;
  past = t.past;
  spent =
      let split = elapsed_split start now end b.rate_hz h k in
      let rate = ap (λ r. (end - now) * r) s.same_rate in
      let first = s.spent in let second = t.spent in ground arith;
}

run-Spends :
    (id start : ℕ) (b : Bucket) (cs : List Command) (w : Writer)
    → find id w.rate_limiters ≡ some b
    → b.last_refill ≤ start
    → IsOrdered start cs
    → Spends id start (end_time start cs) b w (run cs w)
unfolding run
run-Spends id start b [] w found past h =
    Spends-nothing id start start b w found past (omega arith) w refl refl
run-Spends id start b (c ∷ cs) w found past h =
    let first = send-Spends id start c.now b w found past h.0 c.id c.payload c.dlc c.accepts in
    compose id start c.now (end_time c.now cs) b w (send_command c w).1 _ h.0
      (end_time_later c.now cs h.1) first
      (run-Spends id c.now first.after cs (send_command c w).1 first.found first.past h.1)

-- An identifier has a bucket for a rate, which was last used by the time `t`.
pub record IsLimited (id rate t : ℕ) (w : Writer) : Type 0 where
  pub bucket : Bucket
  pub found : find id w.rate_limiters ≡ some bucket
  pub rated : bucket.rate_hz ≡ rate
  pub filled : bucket.max_tokens ≡ rate * token
  pub past : bucket.last_refill ≤ t

-- For an identifier with a rate limit, over any sequence of calls of `send`, for any identifiers and
-- whatever the interface answers, as long as the clock does not run backwards: the frames of that
-- identifier that are handed to the interface are at most the rate, plus the rate times the seconds
-- from the start to the last call; and the rate limit stays in force.
pub run-rate :
    (id rate start : ℕ) (cs : List Command) (w : Writer)
    → IsLimited id rate start w
    → IsOrdered start cs
    → IsLimited id rate (end_time start cs) (run cs w)
      × (count_for id (run cs w).handed * token
          ≤ count_for id w.handed * token + rate * token + (end_time start cs - start) * rate)
run-rate id rate start cs w l h =
    let s = run-Spends id start l.bucket cs w l.found l.past h in
    (
      record {
        bucket = s.after;
        found = s.found;
        rated = s.same_rate ∙ l.rated;
        filled = s.same_max ∙ l.filled;
        past = s.past;
      },
      (let paid = s.spent in
          let full = l.filled in
          let rated = ap (λ r. (end_time start cs - start) * r) l.rated in ground arith),
    )
