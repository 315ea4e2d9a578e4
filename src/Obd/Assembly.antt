-- ===== src/Obd/Assembly.antt =====
-- How the vehicle identification number is put together from three frames, and that it ends.
use native.Mathlib.Nat.{add-zero, zero-add}
use rpi_speeduino_dashboard.Common.{
  ℕ, zero, suc, ◌+◌, ◌-◌, ◌*◌, ◌≤◌, ◌<◌, ◌≡◌, ◌≢◌, refl, sym, ap, subst, ◌∙◌, true, false, not,
  ◌&&◌, Option, none, some, List, [], ◌∷◌, ◌++◌, All, arith, ltb, ◌==◌, get_or, length,
  length-append, u8,
}
use mathlib.Core.List.{append-nil, append_assoc}
use rpi_speeduino_dashboard.Bus.{CanFrame}
use rpi_speeduino_dashboard.Obd.Exchange.{pci_type}
use rpi_speeduino_dashboard.Obd.Vin.{
  Tail, add_chars, bytes_from, Partial, is_next, take_frame, collect, non_empty, vin_of,
}

length-add_chars :
    (limit : ℕ) (cs text : List ℕ) → length text ≤ limit → length (add_chars limit cs text) ≤ limit
unfolding add_chars
length-add_chars limit [] text h = h
length-add_chars limit (c ∷ cs) text h =
    length-add_chars limit cs _ (ground (arith, length-append text (c ∷ [])))

length-take_frame :
    (o : Option CanFrame) (p : Partial) → length p.vin ≤ 17 → length (take_frame o p).vin ≤ 17
unfolding take_frame
length-take_frame none p h = h
length-take_frame (some f) p h = ground (arith, length-add_chars 17 (bytes_from f 1 7) p.vin)

-- Whatever frames arrive, what is collected never exceeds seventeen characters.
length-collect :
    (fuel k : ℕ) (t : Tail) (p : Partial) {vin : List ℕ}
    → length p.vin ≤ 17
    → collect fuel k t p ≡ some vin
    → length vin ≤ 17
unfolding collect
length-collect zero k t p h e = cc
length-collect (suc fuel) k t p {vin} h e = ground (
  arith,
  length-take_frame (t.received k) p h,
  length-collect fuel (suc k) t (take_frame (t.received k) p) {vin = vin},
)

-- The loop ends: if the clock is past its second at the n-th look, n + 1 rounds are enough, whatever
-- frames arrive.
collect-total :
    (fuel k n : ℕ) (t : Tail) (p : Partial)
    → 1000 * 1000000 < t.elapsed (k + n)
    → n < fuel
    → collect fuel k t p ≢ none
unfolding collect
collect-total zero k n t p h l = absurd (omega arith)
collect-total (suc fuel) k zero t p h l = ground (arith, ap t.elapsed (add-zero k))
collect-total (suc fuel) k (suc n) t p h l =
    let shift : k + suc n ≡ suc k + n = omega arith in
    ground (
      arith,
      collect-total fuel (suc k) n t (take_frame (t.received k) p)
          (subst (λ m. 1000 * 1000000 < t.elapsed m) shift h),
    )

add_chars-All :
    (limit : ℕ) (cs text : List ℕ)
    → All (λ c. c ≢ 0) cs
    → length text + length cs ≤ limit
    → add_chars limit cs text ≡ text ++ cs
unfolding add_chars
add_chars-All limit [] text a h = sym (append-nil text)
add_chars-All limit (c ∷ cs) text a h =
    let room : (ltb (length text) limit && not (c == 0)) ≡ true = ground arith in
    rw room (
      add_chars-All limit cs (text ++ c ∷ []) a.1 (omega (arith, length-append text (c ∷ [])))
      ∙ append_assoc text (c ∷ []) cs)

-- A frame that the loop passes over.
abbrev pub IsNoise : ℕ → Option CanFrame → Type 0
IsNoise expected none = Unit {0}
IsNoise expected (some f) = is_next expected f ≡ false

take_frame-noise : (o : Option CanFrame) (p : Partial) → IsNoise p.expected o → take_frame o p ≡ p
unfolding take_frame
take_frame-noise none p h = refl
take_frame-noise (some f) p h = ground arith

collect-skip :
    (fuel' fuel k n : ℕ) (t : Tail) (p : Partial)
    → fuel' ≡ n + fuel
    → length p.vin < 17
    → ((m : ℕ) → m < k + n → t.elapsed m ≤ 1000 * 1000000)
    → ((m : ℕ) → k ≤ m → m < k + n → IsNoise p.expected (t.received m))
    → collect fuel' k t p ≡ collect fuel (k + n) t p
collect-skip fuel' fuel k zero t p e l b s = λ i. collect (same i) (sym (add-zero k) i) t p
  where
    same : fuel' ≡ fuel
    same = omega arith
collect-skip zero fuel k (suc n) t p e l b s = absurd (omega arith)
collect-skip (suc fuel') fuel k (suc n) t p e l b s =
    let shift : suc k + n ≡ k + suc n = omega arith in
    collect-step
    ∙ (collect-skip fuel' fuel (suc k) n t p (omega arith) l (λ m h. b m (omega arith))
          (λ m h h'. s m (omega arith) (omega arith))
        ∙ ap (λ m. collect fuel m t p) shift)
  where
    collect-step : collect (suc fuel') k t p ≡ collect fuel' (suc k) t p
    collect-step =
        unfold collect in
        ground (arith, b k, take_frame-noise (t.received k) p (s k (omega arith) (omega arith)))

collect-take :
    (fuel k : ℕ) (t : Tail) (p : Partial) (f : CanFrame)
    → length p.vin < 17
    → t.elapsed k ≤ 1000 * 1000000
    → t.received k ≡ some f
    → is_next p.expected f ≡ true
    → collect (suc fuel) k t p
      ≡ collect fuel
          (suc k)
          t
          (record { vin = add_chars 17 (bytes_from f 1 7) p.vin; expected = u8 (p.expected + 1) })
unfolding collect take_frame
collect-take fuel k t p f l b e n = ground arith

-- The i-th frame is `second` and, j looks after the next, `third` comes; the rest is passed over,
-- and the second has not run out.
pub record IsDelivery (t : Tail) (i j : ℕ) (second third : CanFrame) : Type 0 where
  pub sent : t.sent ≡ true
  pub in_time : (m : ℕ) → m < i + j + 2 → t.elapsed m ≤ 1000 * 1000000
  pub noise_before : (m : ℕ) → m < i → IsNoise 1 (t.received m)
  pub second_at : t.received i ≡ some second
  pub is_second : is_next 1 second ≡ true
  pub noise_between : (m : ℕ) → i < m → m < i + j + 1 → IsNoise 2 (t.received m)
  pub third_at : t.received (i + j + 1) ≡ some third
  pub is_third : is_next 2 third ≡ true

-- The bytes of a frame from `i` on hold `n` characters.
abbrev pub HasText : CanFrame → ℕ → ℕ → Type 0
HasText f i n = All (λ c. c ≢ 0) (bytes_from f i n)

length-bytes_from : (f : CanFrame) (i n : ℕ) → length (bytes_from f i n) ≡ n
unfolding bytes_from
length-bytes_from f i zero = refl
length-bytes_from f i (suc n) = ap suc (length-bytes_from f (i + 1) n)

collect-full :
    (fuel k : ℕ) (t : Tail) (p : Partial)
    → 17 ≤ length p.vin
    → collect (suc fuel) k t p ≡ some p.vin
unfolding collect
collect-full fuel k t p h = ground arith

module _ (t : Tail) (i j : ℕ) (second third : CanFrame) (d : IsDelivery t i j second third) where
  -- From three characters on.
  collect-delivery :
      (fuel : ℕ) (start : List ℕ)
      → length start ≡ 3
      → HasText second 1 7
      → HasText third 1 7
      → i + j + 2 < fuel
      → collect fuel 0 t (record { vin = start; expected = 1 })
        ≡ some ((start ++ bytes_from second 1 7) ++ bytes_from third 1 7)
  collect-delivery fuel start l a b h =
      collect-skip fuel (suc (suc j + suc rest)) 0 i t _ (omega arith) (omega (arith, l))
        (λ m q. d.in_time m (omega arith)) (λ m q r. d.noise_before m (omega (arith, zero-add i)))
      ∙ (ap (λ k. collect (suc (suc j + suc rest)) k t (record { vin = start; expected = 1 }))
            (zero-add i)
          ∙ (collect-take (suc j + suc rest) i t _ second (omega (arith, l))
                (d.in_time i (omega arith)) d.second_at d.is_second
              ∙ (ap (λ v. collect (suc j + suc rest) (suc i) t (record { vin = v; expected = 2 }))
                    ten
                  ∙ (collect-skip (suc j + suc rest) (suc (suc rest)) (suc i) j t _ (omega arith)
                        (omega (arith, length-ten)) (λ m q. d.in_time m (omega arith))
                        (λ m q r. d.noise_between m (omega arith) (omega arith))
                      ∙ (ap
                            (λ k.
                              collect (suc (suc rest)) k t
                                (record { vin = start ++ bytes_from second 1 7; expected = 2 }))
                            after
                          ∙ (collect-take (suc rest) (i + j + 1) t _ third
                                (omega (arith, length-ten)) (d.in_time (i + j + 1) (omega arith))
                                d.third_at d.is_third
                              ∙ (ap
                                    (λ v.
                                      collect (suc rest) (suc (i + j + 1)) t
                                        (record { vin = v; expected = 3 }))
                                    seventeen
                                  ∙ collect-full rest (suc (i + j + 1)) t _
                                      (omega (arith, length-seventeen)))))))))
    where
      rest : ℕ
      rest = fuel - (i + j + 3)

      after : suc i + j ≡ i + j + 1
      after = omega arith

      ten : add_chars 17 (bytes_from second 1 7) start ≡ start ++ bytes_from second 1 7
      ten = add_chars-All 17 _ start a (omega (arith, l, length-bytes_from second 1 7))

      length-ten : length (start ++ bytes_from second 1 7) ≡ 10
      length-ten =
          omega
            (arith, length-append start (bytes_from second 1 7), l, length-bytes_from second 1 7)

      seventeen :
          add_chars 17 (bytes_from third 1 7) (start ++ bytes_from second 1 7)
          ≡ (start ++ bytes_from second 1 7) ++ bytes_from third 1 7
      seventeen = add_chars-All 17 _ _ b (omega (arith, length-ten, length-bytes_from third 1 7))

      length-seventeen : length ((start ++ bytes_from second 1 7) ++ bytes_from third 1 7) ≡ 17
      length-seventeen = omega (
        arith,
        length-append (start ++ bytes_from second 1 7) (bytes_from third 1 7),
        length-ten,
        length-bytes_from third 1 7,
      )

  -- If a first frame of the right mode and PID is followed in time by its two consecutive frames in
  -- order, with any other frames or silence before and between them, and the three hold seventeen
  -- characters, none of them zero, then the number is these characters, in order.
  pub vin_of-delivery :
      (fuel : ℕ) (first : CanFrame)
      → pci_type first ≡ 1
      → get_or first.bytes 2 0 ≡ 0x49
      → get_or first.bytes 3 0 ≡ 0x02
      → HasText first 5 3
      → HasText second 1 7
      → HasText third 1 7
      → i + j + 2 < fuel
      → vin_of fuel t first
        ≡ some (some ((bytes_from first 5 3 ++ bytes_from second 1 7) ++ bytes_from third 1 7))
  unfolding vin_of non_empty bytes_from
  vin_of-delivery fuel first e1 e2 e3 x a b h = simp (
    e1,
    e2,
    e3,
    d.sent,
    add_chars-All 17 (bytes_from first 5 3) [] x (omega arith),
    collect-delivery fuel (bytes_from first 5 3) refl a b h,
  )
