-- ===== src/Writer/Loading.antt =====
-- What `loadAllowedCommands` leaves, duplicates included.
use rpi_speeduino_dashboard.Common.{
  ℕ, ◌≡◌, refl, sym, ap, ◌∙◌, inl, inr, Option, none, some, List, [], ◌∷◌, arith, ◌==◌,
  if◌then◌else◌, ℕ-cases, Option-cases,
}
use rpi_speeduino_dashboard.Common.Maps.{find, put, emplace, is_some}
use rpi_speeduino_dashboard.Writer.Bucket.{Bucket, new_bucket}
use rpi_speeduino_dashboard.Writer.Commands.{
  CanCommandDef, Writer, add_command, add_commands, load_allowed_commands, is_allowed,
  get_rate_limit,
}
use rpi_speeduino_dashboard.Writer.Rate.{IsLimited}

-- The rate of the first command with an identifier, and of the last one.
unfoldable pub first_rate : ℕ → List CanCommandDef → Option ℕ
first_rate id [] = none
first_rate id (c ∷ cs) = if id == c.can_id then some c.rate_limit_hz else first_rate id cs

unfoldable pub last_rate : ℕ → List CanCommandDef → Option ℕ
last_rate id [] = none
last_rate id (c ∷ cs) = elim (last_rate id cs) [
  | some rate ↦ some rate
  | none ↦ if id == c.can_id then some c.rate_limit_hz else none
]

abbrev or_else {ℓ} : {A : Type ℓ} → Option A → Option A → Option A
or_else (some a) o = some a
or_else none o = o

add_commands-whitelist :
    (now id : ℕ) (cs : List CanCommandDef) (w : Writer)
    → find id (add_commands now cs w).whitelist ≡ or_else (last_rate id cs) (find id w.whitelist)
unfolding add_commands add_command last_rate put find
add_commands-whitelist now id [] w = refl
add_commands-whitelist now id (c ∷ cs) w =
    add_commands-whitelist now id cs (add_command now c w) ∙ elim (Option-cases (last_rate id cs)) [
      | inl none_later ↦ ground arith
      | inr (r, later) ↦ ground arith
    ]

abbrev pub rate_or_0 : Option ℕ → ℕ
rate_or_0 none = 0
rate_or_0 (some rate) = rate

abbrev pub bucket_of : ℕ → Option ℕ → Option Bucket
bucket_of now none = none
bucket_of now (some rate) = some (new_bucket now rate)

or_else-none {ℓ} : {A : Type ℓ} (o : Option A) → o ≡ or_else o none
or_else-none none = refl
or_else-none (some a) = refl

find-emplace :
    (now id rate key : ℕ) (rest : Option ℕ) (es : List (ℕ × Bucket))
    → or_else (find id (emplace key (new_bucket now rate) es)) (bucket_of now rest)
      ≡ or_else (find id es) (bucket_of now (if id == key then some rate else rest))
unfolding emplace put find
find-emplace now id rate key rest es = elim (ℕ-cases id key) [
  | inl same ↦ elim (Option-cases (find key es)) [
    | inl none_there ↦ ground arith
    | inr (b, there) ↦ ground arith
  ]
  | inr differs ↦ elim (Option-cases (find key es)) [
    | inl none_there ↦ ground arith
    | inr (b, there) ↦ ground arith
  ]
]

add_commands-limiters :
    (now id : ℕ) (cs : List CanCommandDef) (w : Writer)
    → find id (add_commands now cs w).rate_limiters
      ≡ or_else (find id w.rate_limiters) (bucket_of now (first_rate id cs))
unfolding add_commands add_command first_rate
add_commands-limiters now id [] w = or_else-none (find id w.rate_limiters)
add_commands-limiters now id (c ∷ cs) w =
    add_commands-limiters now id cs (add_command now c w)
    ∙ find-emplace now id c.rate_limit_hz c.can_id (first_rate id cs) w.rate_limiters

-- Loading makes an identifier allowed exactly when a command names it. `getRateLimit` reports the
-- rate of the last command that does, 0 if none does, and the bucket has the rate of the first one.
pub load_allowed_commands_lem :
    (now id : ℕ) (cs : List CanCommandDef) (w : Writer)
    → let v = load_allowed_commands now cs w in
      (is_allowed id v ≡ is_some (last_rate id cs))
      × (get_rate_limit id v ≡ rate_or_0 (last_rate id cs))
      × (find id v.rate_limiters ≡ bucket_of now (first_rate id cs))
unfolding load_allowed_commands is_allowed get_rate_limit find
load_allowed_commands_lem now id cs w =
    let cleared : Writer = record w { whitelist = []; rate_limiters = [] } in
    let listed = add_commands-whitelist now id cs cleared ∙ sym (or_else-none (last_rate id cs)) in
    (ap is_some listed, ap rate_or_0 listed, add_commands-limiters now id cs cleared)

-- An identifier whose first command has a rate is limited to that rate from the loading on.
pub load_allowed_commands-IsLimited :
    (now id rate : ℕ) (cs : List CanCommandDef) (w : Writer)
    → first_rate id cs ≡ some rate
    → IsLimited id rate now (load_allowed_commands now cs w)
unfolding new_bucket
load_allowed_commands-IsLimited now id rate cs w first =
    let (listed, reported, limited) = load_allowed_commands_lem now id cs w in
    record {
      bucket = new_bucket now rate;
      found = limited ∙ ap (bucket_of now) first;
      rated = refl;
      filled = refl;
      past = omega arith;
    }
