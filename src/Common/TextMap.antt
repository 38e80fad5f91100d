-- ===== src/Common/TextMap.antt =====
-- Maps and sets with texts for keys, as association lists and lists: an entry is replaced where it
-- stands, and a new one comes last.
use mathlib.Core.Path.{◌≡◌, refl}
use mathlib.Core.Bool.{Bool, false, ◌||◌}
use mathlib.Core.Option.{Option, none, some}
use mathlib.Core.List.{List, [], ◌∷◌}
use native.Mathlib.Omega.{arith}
use oxiterm.Common.Checks.{if◌then◌else◌}
use oxiterm.Common.Texts.{Text, text_eq, text_eq_iff}

abbrev pub TextMap {ℓ} : Type ℓ → Type ℓ
TextMap V = List (Text × V)

module _ {ℓ} {V : Type ℓ} where
  unfoldable pub value_of : TextMap V → Text → Option V
  value_of [] k = none
  value_of ((j, v) ∷ m) k = if text_eq j k then some v else value_of m k

  unfoldable pub insert : TextMap V → Text → V → TextMap V
  insert [] k v = (k, v) ∷ []
  insert ((j, w) ∷ m) k v =
      let later = insert m k v in if text_eq j k then (j, v) ∷ m else (j, w) ∷ later

  -- A key stands once at most; all its entries are dropped.
  unfoldable pub without : TextMap V → Text → TextMap V
  without [] k = []
  without ((j, w) ∷ m) k = let later = without m k in if text_eq j k then later else (j, w) ∷ later

  pub value_of-insert :
      (m : TextMap V) (k j : Text) (v : V)
      → value_of (insert m k v) j ≡ (if text_eq k j then some v else value_of m j)
  unfolding value_of insert
  value_of-insert [] k j v = refl
  value_of-insert ((i, w) ∷ m) k j v =
      ground (arith, text_eq_iff i k, text_eq_iff i j, text_eq_iff k j, value_of-insert m k j v)

  pub value_of-without :
      (m : TextMap V) (k j : Text)
      → value_of (without m k) j ≡ (if text_eq k j then none else value_of m j)
  unfolding value_of without
  value_of-without [] k j = ground arith
  value_of-without ((i, w) ∷ m) k j =
      ground (arith, text_eq_iff i k, text_eq_iff i j, text_eq_iff k j, value_of-without m k j)

-- Sets of texts.
unfoldable pub has : List Text → Text → Bool
has [] k = false
has (j ∷ s) k = text_eq j k || has s k

unfoldable pub add : List Text → Text → List Text
unfolding has
add [] k = k ∷ []
add (j ∷ s) k = let later = add s k in if text_eq j k then j ∷ s else j ∷ later

pub has-add : (s : List Text) (k j : Text) → has (add s k) j ≡ (text_eq k j || has s j)
unfolding has add
has-add [] k j = refl
has-add (i ∷ s) k j =
    ground (arith, text_eq_iff i k, text_eq_iff i j, text_eq_iff k j, has-add s k j)
