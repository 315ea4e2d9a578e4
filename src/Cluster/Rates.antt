-- ===== src/Cluster/Rates.antt =====
-- How many frames of each kind the loop of `BMWClusterSim` sends, and how long that takes.
use rpi_speeduino_dashboard.Common.{
  ◌∙◌, arith, ℕ, ◌+◌, ◌*◌, ◌/◌, ◌%◌, ◌≤◌, ◌<◌, ◌≡◌, refl, ap, ◌==◌, Bool, true, false, ◌&&◌, List,
  [], ◌∷◌, All, length, if◌then◌else◌, if-elim, u32,
}
use rpi_speeduino_dashboard.Bus.{make_frame, CanFrame}
use rpi_speeduino_dashboard.Cluster.State.{Settings, Cluster}
use rpi_speeduino_dashboard.Cluster.Frames.{
  asc1_id, egs_id, sas_id, abs1_id, abs2_id, asc1_frame, egs_frame, sas_frame, abs_frame, hand,
  send_asc1, send_egs, send_sas, send_abs,
}
use rpi_speeduino_dashboard.Cluster.Ticks.{
  Round, tick_asc, tick_egs, tick_sas, tick_abs, tick, transmit_loop,
}

-- The frames with an identifier.
abbrev pub count : ℕ → List CanFrame → ℕ
count id [] = 0
count id (f ∷ fs) = (if f.id == id then 1 else 0) + count id fs

abbrev pub on : Bool → ℕ → ℕ
on b n = if b then n else 0

-- From c to c' the settings and the counter stay, and of each identifier so many frames are sent.
record Adds (c c' : Cluster) (k : ℕ → ℕ) : Type 0 where
  settings : c'.settings ≡ c.settings
  counter : c'.tick_counter ≡ c.tick_counter
  counts : (id : ℕ) → count id c'.handed ≡ k id + count id c.handed

Adds-trans :
    (a b c : Cluster) {k : ℕ → ℕ} (amount : Settings → ℕ → ℕ → ℕ)
    → Adds a b k
    → Adds b c (amount b.settings b.tick_counter)
    → Adds a c (λ id. amount a.settings a.tick_counter id + k id)
Adds-trans a b c {k} amount h g = record {
  settings = g.settings ∙ h.settings;
  counter = g.counter ∙ h.counter;
  counts = λ id.
      let same : amount b.settings b.tick_counter id ≡ amount a.settings a.tick_counter id =
        rw (h.settings, h.counter) refl in
      omega (arith, h.counts id, g.counts id, same);
}

-- A frame under a condition.
Adds-if :
    (c c' : Cluster) (b : Bool) {k : ℕ → ℕ}
    → Adds c c' k
    → Adds c (if b then c' else c) (λ id. on b (k id))
Adds-if c c' true a = a
Adds-if c c' false a = record { settings = refl; counter = refl; counts = λ id. omega arith }

-- How many frames with an identifier a part of `tick` sends, from the settings and the counter.
abbrev asc_of : Settings → ℕ → ℕ → ℕ
asc_of s n id = on (s.asc_enabled && (n % 5 == 0)) (if asc1_id == id then 1 else 0)

abbrev egs_of : Settings → ℕ → ℕ → ℕ
egs_of s n id = on (s.egs_enabled && (n % 5 == 1)) (if egs_id == id then 1 else 0)

abbrev sas_of : Settings → ℕ → ℕ → ℕ
sas_of s n id = on s.sas_enabled (if sas_id == id then 1 else 0)

abbrev abs_of : Settings → ℕ → ℕ → ℕ
abs_of s n id =
    on (s.abs_enabled && (n % 2 == 0))
      ((if abs2_id == id then 1 else 0) + (if abs1_id == id then 1 else 0))

abbrev tick_of : Settings → ℕ → ℕ → ℕ
tick_of s n id = abs_of s n id + (sas_of s n id + (egs_of s n id + asc_of s n id))

module _ (answer : List CanFrame → CanFrame → Bool) where
  pub hand-handed : (f : CanFrame) (c : Cluster) → (hand answer f c).handed ≡ f ∷ c.handed
  unfolding hand
  hand-handed f c =
      if-elim {A = Cluster} (λ r. r.handed ≡ f ∷ c.handed) (answer c.handed f) (λ e. refl)
        (λ e. refl)

  pub hand-settings : (f : CanFrame) (c : Cluster) → (hand answer f c).settings ≡ c.settings
  unfolding hand
  hand-settings f c =
      if-elim {A = Cluster} (λ r. r.settings ≡ c.settings) (answer c.handed f) (λ e. refl)
        (λ e. refl)

  hand-Adds :
      (f : CanFrame) (c : Cluster) → Adds c (hand answer f c) (λ id. if f.id == id then 1 else 0)
  unfolding hand
  hand-Adds f c = record {
    settings = hand-settings f c;
    counter =
        if-elim {A = Cluster} (λ r. r.tick_counter ≡ c.tick_counter) (answer c.handed f) (λ e. refl)
          (λ e. refl);
    counts = λ id. ap (count id) (hand-handed f c);
  }

  tick_asc-Adds : (c : Cluster) → Adds c (tick_asc answer c) (asc_of c.settings c.tick_counter)
  unfolding tick_asc send_asc1 asc1_frame make_frame
  tick_asc-Adds c = Adds-if c _ _ (hand-Adds _ c)

  tick_egs-Adds : (c : Cluster) → Adds c (tick_egs answer c) (egs_of c.settings c.tick_counter)
  unfolding tick_egs send_egs egs_frame make_frame
  tick_egs-Adds c = Adds-if c _ _ (hand-Adds _ c)

  tick_sas-Adds : (c : Cluster) → Adds c (tick_sas answer c) (sas_of c.settings c.tick_counter)
  unfolding tick_sas send_sas sas_frame make_frame
  tick_sas-Adds c = Adds-if c _ _ (hand-Adds _ c)

  tick_abs-Adds : (c : Cluster) → Adds c (tick_abs answer c) (abs_of c.settings c.tick_counter)
  unfolding tick_abs send_abs abs_frame make_frame
  tick_abs-Adds c =
      Adds-if c _ _ (
        Adds-trans _ _ _ (λ s n id. if abs2_id == id then 1 else 0) (hand-Adds _ c) (hand-Adds _ _))

  tick-Adds :
      (c : Cluster)
      → Adds
          (record c { tick_counter = u32 (c.tick_counter + 1) })
          (tick answer c)
          (tick_of c.settings (u32 (c.tick_counter + 1)))
  unfolding tick
  tick-Adds c =
      Adds-trans _ _ _ abs_of
        (Adds-trans _ _ _ sas_of (Adds-trans _ _ _ egs_of (tick_asc-Adds _) (tick_egs-Adds _))
          (tick_sas-Adds _))
        (tick_abs-Adds _)

-- How many frames with an identifier the ticks up to the count n send: of the stability control and
-- of the gearbox one for every five, of the steering angle one for each, of the wheels, front and
-- rear, one for every two.
abbrev pub due : Settings → ℕ → ℕ → ℕ
due s n id =
    on s.abs_enabled ((if abs2_id == id then n / 2 else 0) + (if abs1_id == id then n / 2 else 0))
    + (on s.sas_enabled (if sas_id == id then n else 0)
        + (on s.egs_enabled (if egs_id == id then (n + 4) / 5 else 0)
            + on s.asc_enabled (if asc1_id == id then n / 5 else 0)))

due_fifth :
    (b e : Bool) (n : ℕ)
    → on b (if e then (n + 1) / 5 else 0)
      ≡ on (b && ((n + 1) % 5 == 0)) (if e then 1 else 0) + on b (if e then n / 5 else 0)
due_fifth true true n = ground arith
due_fifth true false n = ground arith
due_fifth false e n = refl

due_first :
    (b e : Bool) (n : ℕ)
    → on b (if e then (n + 1 + 4) / 5 else 0)
      ≡ on (b && ((n + 1) % 5 == 1)) (if e then 1 else 0) + on b (if e then (n + 4) / 5 else 0)
due_first true true n = ground arith
due_first true false n = ground arith
due_first false e n = refl

due_each :
    (b e : Bool) (n : ℕ)
    → on b (if e then n + 1 else 0) ≡ on b (if e then 1 else 0) + on b (if e then n else 0)
due_each true true n = omega arith
due_each true false n = omega arith
due_each false e n = refl

due_half :
    (b e d : Bool) (n : ℕ)
    → on b ((if e then (n + 1) / 2 else 0) + (if d then (n + 1) / 2 else 0))
      ≡ on (b && ((n + 1) % 2 == 0)) ((if e then 1 else 0) + (if d then 1 else 0))
        + on b ((if e then n / 2 else 0) + (if d then n / 2 else 0))
due_half true true true n = ground arith
due_half true true false n = ground arith
due_half true false true n = ground arith
due_half true false false n = ground arith
due_half false e d n = refl

due-suc : (s : Settings) (n id : ℕ) → due s (n + 1) id ≡ tick_of s (n + 1) id + due s n id
due-suc s n id = omega (
  arith,
  due_fifth s.asc_enabled (asc1_id == id) n,
  due_first s.egs_enabled (egs_id == id) n,
  due_each s.sas_enabled (sas_id == id) n,
  due_half s.abs_enabled (abs2_id == id) (abs1_id == id) n,
)

-- Other threads do not switch modules on or off in a round.
pub record KeepsModules (r : Round) : Type 0 where
  pub asc : (s : Settings) → (r.set s).asc_enabled ≡ s.asc_enabled
  pub egs : (s : Settings) → (r.set s).egs_enabled ≡ s.egs_enabled
  pub sas : (s : Settings) → (r.set s).sas_enabled ≡ s.sas_enabled
  pub abs : (s : Settings) → (r.set s).abs_enabled ≡ s.abs_enabled

due-set :
    (r : Round) (s t : Settings) (n m id : ℕ)
    → KeepsModules r
    → t ≡ s
    → m ≡ n
    → due (r.set t) m id ≡ due s n id
due-set r s t n m id k e c = rw (k.asc t, k.egs t, k.sas t, k.abs t, e, c) refl

abbrev pub sum : List ℕ → ℕ
sum [] = 0
sum (n ∷ ns) = n + sum ns

abbrev pub all_elapsed : List Round → ℕ
all_elapsed [] = 0
all_elapsed (r ∷ rs) = r.elapsed + all_elapsed rs

-- While no other thread switches modules and the counter of ticks does not wrap, the loop has sent,
-- of each kind, the frames that are due after so many ticks; the rounds with their sleeps take
-- at least 20 milliseconds each.
pub transmit_loop-rates :
    (answer : List CanFrame → CanFrame → Bool) (rs : List Round) (c : Cluster)
    → All KeepsModules rs
    → c.tick_counter + length rs < 4294967296
    → ((id : ℕ)
        → count id (transmit_loop answer rs c).1.handed + due c.settings c.tick_counter id
          ≡ count id c.handed + due c.settings (c.tick_counter + length rs) id)
      × (20000000 * length rs ≤ all_elapsed rs + sum (transmit_loop answer rs c).0)
unfolding transmit_loop
transmit_loop-rates answer [] c k h =
    ((λ id. ap (λ n. count id c.handed + due c.settings n id) (omega arith)), omega arith)
transmit_loop-rates answer (r ∷ rs) c k h =
    let ticked : Cluster = tick answer c in
    let a = tick-Adds answer c in
    let wraps : u32 (c.tick_counter + 1) ≡ c.tick_counter + 1 = omega arith in
    let counter : ticked.tick_counter ≡ c.tick_counter + 1 = omega (arith, a.counter) in
    let next : Cluster = record ticked { settings = r.set ticked.settings } in
    let (counts, time) = transmit_loop-rates answer rs next k.1 (omega (arith, counter)) in
    (
      (λ id.
          let sent = ap (λ n. tick_of c.settings n id + count id c.handed) wraps in
          let now = due-set r c.settings _ _ _ id k.0 a.settings counter in
          let last =
            due-set r c.settings ticked.settings (c.tick_counter + length (r ∷ rs))
              (ticked.tick_counter + length rs) id k.0 a.settings (omega (arith, counter)) in
          omega (
            arith,
            counts id,
            a.counts id ∙ sent,
            now,
            last,
            due-suc c.settings c.tick_counter id,
          )),
      omega (arith, time),
    )
