-- ===== src/Base/Dict.antt =====
-- A Python dictionary with numbers for keys: its items, in the order of insertion.
use Prim.Native.Nat.{ℕ}
use mathlib.Core.Option.{Option, none, some}
use mathlib.Core.List.{List, [], ◌∷◌}
use ibet_prime.Base.Tests.{◌==◌, if◌then◌else◌}

module _ {ℓ} {V : Type ℓ} where
  -- `d[key] = f(d.get(key))`
  abbrev pub upsert : ℕ → (Option V → V) → List (ℕ × V) → List (ℕ × V)
  upsert key f [] = (key, f none) ∷ []
  upsert key f ((k, v) ∷ items) =
      if k == key then (k, f (some v)) ∷ items else (k, v) ∷ upsert key f items
