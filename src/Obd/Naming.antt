-- ===== src/Obd/Naming.antt =====
-- That the ECU's name is found in time, and what it can be.
use native.Mathlib.Nat.{add-zero, zero-add}
use rpi_speeduino_dashboard.Common.{
  ℕ, zero, suc, ◌+◌, ◌*◌, ◌≤◌, ◌<◌, ◌≡◌, ◌≢◌, ap, sym, subst, inl, inr, Bool, true, false, not,
  ◌&&◌, Option, none, some, List, [], ◌∷◌, ◌++◌, All, All-append, arith, ltb, ◌==◌, if◌then◌else◌,
  get_or, length, length-append, Bool-cases,
}
use rpi_speeduino_dashboard.Bus.{CanFrame}
use rpi_speeduino_dashboard.Obd.Exchange.{pci_type}
use rpi_speeduino_dashboard.Obd.Vin.{Tail, bytes_from, is_next, non_empty}
use rpi_speeduino_dashboard.Obd.EcuName.{
  until_zero, add_until_zero, NamePart, take_name_frame, collect_name, name_of, named,
}

-- At most twenty characters, none of them zero.
abbrev pub IsName : List ℕ → Type 0
IsName text = (length text ≤ 20) × All (λ c. c ≢ 0) text

until_zero-All : (cs : List ℕ) → All (λ c. c ≢ 0) (until_zero cs)
unfolding until_zero
until_zero-All [] = tt
until_zero-All (c ∷ cs) = elim (Bool-cases (c == 0)) [
  | inl zero_here ↦ rw zero_here tt
  | inr other ↦ rw other ((λ e. ground arith), until_zero-All cs)
]

length-until_zero : (cs : List ℕ) → length (until_zero cs) ≤ length cs
unfolding until_zero
length-until_zero [] = omega arith
length-until_zero (c ∷ cs) = ground (arith, length-until_zero cs)

length-bytes_from : (f : CanFrame) (i n : ℕ) → length (bytes_from f i n) ≡ n
unfolding bytes_from
length-bytes_from f i zero = omega arith
length-bytes_from f i (suc n) = omega (arith, length-bytes_from f (i + 1) n)

until_zero-IsName : (f : CanFrame) (i n : ℕ) → n ≤ 20 → IsName (until_zero (bytes_from f i n))
until_zero-IsName f i n h = (
  omega (arith, length-until_zero (bytes_from f i n), length-bytes_from f i n),
  until_zero-All (bytes_from f i n),
)

add_until_zero-IsName : (cs text : List ℕ) → IsName text → IsName (add_until_zero 20 cs text)
unfolding add_until_zero
add_until_zero-IsName [] text v = v
add_until_zero-IsName (c ∷ cs) text v = elim (Bool-cases (ltb (length text) 20 && not (c == 0))) [
  | inr full ↦ rw full v
  | inl room ↦
      let other : c ≢ 0 = ground arith in
      rw room (
        add_until_zero-IsName cs (text ++ c ∷ []) (
          ground (arith, length-append text (c ∷ [])),
          All-append (λ c. c ≢ 0) text (c ∷ []) v.1 (other, tt),
        ))
]

take_name_frame-IsName :
    (o : Option CanFrame) (p : NamePart) → IsName p.name → IsName (take_name_frame o p).name
unfolding take_name_frame
take_name_frame-IsName none p v = v
take_name_frame-IsName (some f) p v = elim (Bool-cases (is_next p.expected f)) [
  | inl next ↦ rw (next, take_name_frame) (add_until_zero-IsName (bytes_from f 1 7) p.name v)
  | inr other ↦ rw (other, take_name_frame) v
]

-- A result that is there and is a name.
abbrev IsFound : Option (List ℕ) → Type 0
IsFound none = ⊥
IsFound (some name) = IsName name

collect_name-IsFound :
    (fuel k n : ℕ) (t : Tail) (p : NamePart)
    → 1000 * 1000000 < t.elapsed (k + n)
    → n < fuel
    → IsName p.name
    → IsFound (collect_name fuel k t p)
unfolding collect_name
collect_name-IsFound zero k n t p h l v = absurd (omega arith)
collect_name-IsFound (suc fuel) k zero t p h l v =
    let late : ltb (1000 * 1000000) (t.elapsed k) ≡ true =
      ground (arith, ap t.elapsed (add-zero k)) in
    elim (Bool-cases (not p.ended && ltb (length p.name) 20)) [
      | inr done ↦ rw (done, collect_name) v
      | inl more ↦ rw (more, late, collect_name) v
    ]
collect_name-IsFound (suc fuel) k (suc n) t p h l v =
    let shift : k + suc n ≡ suc k + n = omega arith in
    let rest =
      collect_name-IsFound fuel (suc k) n t (take_name_frame (t.received k) p)
        (subst (λ m. 1000 * 1000000 < t.elapsed m) shift h) (omega arith)
        (take_name_frame-IsName (t.received k) p v) in
    elim (Bool-cases (not p.ended && ltb (length p.name) 20)) [
      | inr done ↦ rw (done, collect_name) v
      | inl more ↦ elim (Bool-cases (ltb (1000 * 1000000) (t.elapsed k))) [
        | inl late ↦ rw (more, late, collect_name) v
        | inr early ↦ rw (more, early, collect_name) rest
      ]
    ]

-- What the name of the ECU can be: none, or a name that is not empty.
abbrev pub IsOutcome : Option (Option (List ℕ)) → Type 0
IsOutcome none = ⊥
IsOutcome (some none) = Unit {0}
IsOutcome (some (some name)) = IsName name × (name ≢ [])

non_empty-IsOutcome : (text : List ℕ) → IsName text → IsOutcome (some (non_empty text))
unfolding non_empty
non_empty-IsOutcome [] v = tt
non_empty-IsOutcome (c ∷ cs) v = (v, λ e. cc)

named-IsOutcome : (o : Option (List ℕ)) → IsFound o → IsOutcome (named o)
named-IsOutcome none v = v
named-IsOutcome (some name) v = non_empty-IsOutcome name v

if-IsOutcome :
    (b : Bool) (x y : Option (Option (List ℕ)))
    → IsOutcome x
    → IsOutcome y
    → IsOutcome (if b then x else y)
if-IsOutcome true x y v w = v
if-IsOutcome false x y v w = w

-- After any first response and whatever frames follow it, if the clock passes one second at the n-th
-- look, n + 1 rounds are enough for the search to end: with no name, or with a name of one to twenty
-- characters, none of them zero.
name_of-IsOutcome :
    (fuel n : ℕ) (t : Tail) (f : CanFrame)
    → 1000 * 1000000 < t.elapsed n
    → n < fuel
    → IsOutcome (name_of fuel t f)
unfolding name_of
name_of-IsOutcome fuel n t f h l =
    let start = until_zero-IsName f 5 3 (omega arith) in
    let at_n : 1000 * 1000000 < t.elapsed (0 + n) =
      subst (λ m. 1000 * 1000000 < t.elapsed m) (sym (zero-add n)) h in
    let found =
      collect_name-IsFound fuel 0 n t
        (record { name = until_zero (bytes_from f 5 3); expected = 1; ended = false }) at_n l
        start in
    let single = non_empty-IsOutcome _ (until_zero-IsName f 4 4 (omega arith)) in
    if-IsOutcome (pci_type f == 0) _ _
      (if-IsOutcome (get_or f.bytes 1 0 == 0x49 && get_or f.bytes 2 0 == 0x0a) _ _ single tt)
      (if-IsOutcome (pci_type f == 1) _ _
        (if-IsOutcome (get_or f.bytes 2 0 == 0x49 && get_or f.bytes 3 0 == 0x0a) _ _
          (if-IsOutcome t.sent _ _ (named-IsOutcome _ found) (non_empty-IsOutcome _ start)) tt)
        tt)
