-- ===== src/Common/Maps.antt =====
-- Maps from numbers as lists of entries, the newest first: a lookup takes the first entry of a key.
use Prim.Native.Nat.{ℕ}
use mathlib.Core.Path.{◌≡◌}
use mathlib.Core.Logic.{◌≢◌}
use mathlib.Core.Bool.{Bool, true, false}
use mathlib.Core.Option.{Option, none, some}
use mathlib.Core.List.{List, [], ◌∷◌}
use native.Mathlib.Omega.{arith}
use rpi_speeduino_dashboard.Common.Tests.{◌==◌, if◌then◌else◌}

module _ {ℓ} {A : Type ℓ} where
  unfoldable pub find : ℕ → List (ℕ × A) → Option A
  find key [] = none
  find key ((k, a) ∷ es) = if key == k then some a else find key es

  abbrev pub is_some : Option A → Bool
  is_some none = false
  is_some (some a) = true

  -- `m[key] = a`
  unfoldable pub put : ℕ → A → List (ℕ × A) → List (ℕ × A)
  put key a es = (key, a) ∷ es

  -- `m.emplace(key, a)`, which keeps what is there.
  unfoldable pub emplace : ℕ → A → List (ℕ × A) → List (ℕ × A)
  emplace key a es = if is_some (find key es) then es else put key a es

  pub find-put : (key : ℕ) (a : A) (es : List (ℕ × A)) → find key (put key a es) ≡ some a
  unfolding find put
  find-put key a es = ground arith

  pub find-put_other :
      (key other : ℕ) (a : A) (es : List (ℕ × A))
      → key ≢ other
      → find key (put other a es) ≡ find key es
  unfolding find put
  find-put_other key other a es h = ground arith
