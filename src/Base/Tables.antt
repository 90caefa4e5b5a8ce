-- ===== src/Base/Tables.antt =====
-- A database table by its integer primary key: rows in insertion order.
use mathlib.Core.Path.{◌≡◌}
use mathlib.Core.Option.{Option, none, some}
use mathlib.Core.List.{List, [], ◌∷◌}
use Prim.Native.Nat.{ℕ}
use native.Mathlib.Omega.{arith}
use commerceops_ai_platform.Base.Tests.{◌==◌, if◌then◌else◌}

abbrev pub Table {ℓ} : Type ℓ → Type ℓ
Table V = List (ℕ × V)

module _ {ℓ} {V : Type ℓ} where
  abbrev pub lookup : ℕ → Table V → Option V
  lookup k [] = none
  lookup k ((j, v) ∷ t) = if k == j then some v else lookup k t

  -- Writes the row of a key, in place where the key has one.
  abbrev pub insert : ℕ → V → Table V → Table V
  insert k v [] = (k, v) ∷ []
  insert k v ((j, w) ∷ t) = if k == j then (k, v) ∷ t else (j, w) ∷ insert k v t

  pub lookup-insert :
      (j k : ℕ) (v : V) (t : Table V)
      → lookup j (insert k v t) ≡ (if j == k then some v else lookup j t)
  lookup-insert j k v [] = ground arith
  lookup-insert j k v ((i, w) ∷ t) = ground (arith, lookup-insert j k v t)

  pub lookup-insert_self : (k : ℕ) (v : V) (t : Table V) → lookup k (insert k v t) ≡ some v
  lookup-insert_self k v t = ground (arith, lookup-insert k k v t)
