-- ===== src/State/Lookup.antt =====
-- What is read behind a write.
use oxiterm.Common.{
  ◌≡◌, ◌⊎◌, refl, ap, ◌∙◌, true, false, Option, none, some, if◌then◌else◌, Bool-cases, inl, inr,
}
use oxiterm.Common.Texts.{Text, text_eq, text_eq_iff, text_eq_self}
use oxiterm.Common.TextMap.{value_of, value_of-insert}
use oxiterm.State.{StateValue, int, str, bool, list, StateManager, get, set, holds, same_value}

holds-str : (o : Option StateValue) (v : Text) → holds o (str v) ≡ true → o ≡ some (str v)
unfolding holds same_value
holds-str none v h = cc
holds-str (some (int i)) v h = cc
holds-str (some (bool true)) v h = cc
holds-str (some (bool false)) v h = cc
holds-str (some (list l)) v h = cc
holds-str (some (str s)) v h = ap (λ t. some (str t)) ((text_eq_iff s v).0 h)

-- What is written is read.
pub get-set : (s : StateManager) (k v : Text) → get (set s k (str v)) k ≡ some (str v)
unfolding get set
get-set s k v = elim (Bool-cases (holds (get s k) (str v))) [
  | inl e ↦ rw e (holds-str (get s k) v e)
  | inr e ↦ rw e (
      value_of-insert s.store k k (str v)
      ∙ ap (λ b. if b then some (str v) else value_of s.store k) (text_eq_self k))
]

pub get-set_other :
    (s : StateManager) (k j : Text) (v : StateValue)
    → text_eq k j ≡ false
    → get (set s k v) j ≡ get s j
unfolding get set
get-set_other s k j v h = elim (Bool-cases (holds (get s k) v)) [
  | inl e ↦ rw e refl
  | inr e ↦
      rw e (value_of-insert s.store k j v ∙ ap (λ b. if b then some v else value_of s.store j) h)
]

-- A key that is set has its old value or the new one; the others have their old ones.
pub get-set_cases :
    (s : StateManager) (key k : Text) (v : StateValue)
    → (get (set s key v) k ≡ get s k) ⊎ (get (set s key v) k ≡ some v)
unfolding get set
get-set_cases s key k v = elim (Bool-cases (holds (get s key) v)) [
  | inl e ↦ rw e (inl refl)
  | inr e ↦ rw e (elim (Bool-cases (text_eq key k)) [
    | inl t ↦
        inr (value_of-insert s.store key k v ∙ ap (λ b. if b then some v else value_of s.store k) t)
    | inr t ↦
        inl (value_of-insert s.store key k v ∙ ap (λ b. if b then some v else value_of s.store k) t)
  ])
]
