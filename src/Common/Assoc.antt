-- ===== src/Common/Assoc.antt =====
-- Maps with numbers for keys, as association lists: the first entry of a key is its value.
use Prim.Native.Nat.{ℕ}
use mathlib.Core.List.{List, [], ◌∷◌}
use mathlib.Core.Option.{Option, none, some}
use oxiterm.Common.Checks.{◌==◌, if◌then◌else◌}

module _ {ℓ} {V : Type ℓ} where
  abbrev pub lookup : List (ℕ × V) → ℕ → Option V
  lookup [] k = none
  lookup ((i, v) ∷ m) k = if i == k then some v else lookup m k
