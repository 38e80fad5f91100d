-- ===== src/Animation/Settled.antt =====
-- The baselines of a style settle: what they hold of a property is its value, within the tolerance.
use oxiterm.Common.{
  ℕ, ◌^◌, ◌<◌, ◌≡◌, sym, ap, ◌∙◌, subst, false, Option, none, some, List, All, ℕ_discrete,
}
use oxiterm.Common.Int.{ℤ, pos, negsuc}
use oxiterm.Style.Computed.{AnimatableProperty, TransitionSpec, ComputedStyle}
use oxiterm.Animation.{discriminant, props_to_check}
use oxiterm.Animation.Solvers.{Floats, clamp01}
use oxiterm.Animation.Values.{
  StoredPropertyValues, get_value, set_value, target_value, mapped, size_of, offset_of,
}
use oxiterm.Animation.Places.{same-discriminant, get_value-set_other}
use oxiterm.Animation.Sync.{moved}

abbrev pub IsI16 : ℤ → Type 0
IsI16 (pos n) = n < 2 ^ 15
IsI16 (negsuc n) = n < 2 ^ 15

-- What the code relies on: an integer of 16 bits is an `f32`, and a number less itself is 0, or no
-- number.
pub record FloatLaws {F : Type 0} (fl : Floats F) : Type 0 where
  pub u16_kept : (n : ℕ) → n < 2 ^ 16 → size_of fl (fl.of_u16 n) ≡ n
  pub i16_kept : (z : ℤ) → IsI16 z → offset_of fl (fl.of_i16 z) ≡ z
  pub still : (v : F) → moved fl v v ≡ false

abbrev Each : {A : Type 0} → (A → Type 0) → Option A → Type 0
Each P none = Unit
Each P (some a) = P a

-- The fields have the ranges of their types, and the opacity is between 0 and 1.
pub record InRange {F : Type 0} (fl : Floats F) (style : ComputedStyle F ℤ) : Type 0 where
  pub width : Each (λ n. n < 2 ^ 16) style.width
  pub height : Each (λ n. n < 2 ^ 16) style.height
  pub top : Each IsI16 style.top
  pub left : Each IsI16 style.left
  pub right : Each IsI16 style.right
  pub bottom : Each IsI16 style.bottom
  pub opacity : Each (λ o. clamp01 fl o ≡ o) style.opacity

module _ {F : Type 0} (fl : Floats F) where
  -- A target is met by a stored value.
  unfoldable pub Fits : Option F → Option F → Type 0
  Fits none stored = Unit
  Fits (some target) none = ⊥
  Fits (some target) (some prev) = moved fl prev target ≡ false

  abbrev pub Settled : ComputedStyle F ℤ → StoredPropertyValues F → AnimatableProperty → Type 0
  Settled style stored prop = Fits (target_value fl style prop) (get_value fl stored prop)

  -- Each property of some specifications is settled.
  abbrev pub AllSettled :
      ComputedStyle F ℤ → StoredPropertyValues F → List (TransitionSpec F) → Type 0
  AllSettled style stored specs =
      All (λ (spec : TransitionSpec F). All (Settled style stored) (props_to_check spec.property))
        specs

  module _ (laws : FloatLaws fl) where
    kept-Fits :
        {A : Type 0} (to : A → F) (from : F → A) (P : A → Type 0) (value : Option A) (target : F)
        → ((a : A) → P a → from (to a) ≡ a)
        → Each P value
        → mapped to value ≡ some target
        → Fits (mapped to value) (some (to (from target)))
    unfolding Fits
    kept-Fits to from P none target back h e = cc
    kept-Fits to from P (some a) target back h e =
        let same : to a ≡ target = cc in
        ap (λ t. moved fl (to (from t)) (to a)) (sym same)
        ∙ ap (λ b. moved fl (to b) (to a)) (back a h)
        ∙ laws.still (to a)

    opacity-Fits :
        (value : Option F) (target : F)
        → Each (λ o. clamp01 fl o ≡ o) value
        → value ≡ some target
        → Fits value (some (clamp01 fl target))
    unfolding Fits
    opacity-Fits none target h e = cc
    opacity-Fits (some o) target h e =
        let same : o ≡ target = cc in
        ap (λ t. moved fl (clamp01 fl t) o) (sym same) ∙ ap (λ t. moved fl t o) h ∙ laws.still o

    -- A target that is stored is met, though the store rounds and clamps it.
    pub set_value-Settled :
        (style : ComputedStyle F ℤ) (stored : StoredPropertyValues F) (prop : AnimatableProperty)
        (target : F)
        → InRange fl style
        → target_value fl style prop ≡ some target
        → Settled style (set_value fl stored prop (some target)) prop
    unfolding target_value set_value get_value
    set_value-Settled style stored AnimatableProperty.width target r e =
        kept-Fits fl.of_u16 (size_of fl) (λ n. n < 2 ^ 16) style.width target laws.u16_kept r.width
          e
    set_value-Settled style stored AnimatableProperty.height target r e =
        kept-Fits fl.of_u16 (size_of fl) (λ n. n < 2 ^ 16) style.height target laws.u16_kept
          r.height e
    set_value-Settled style stored AnimatableProperty.top target r e =
        kept-Fits fl.of_i16 (offset_of fl) IsI16 style.top target laws.i16_kept r.top e
    set_value-Settled style stored AnimatableProperty.left target r e =
        kept-Fits fl.of_i16 (offset_of fl) IsI16 style.left target laws.i16_kept r.left e
    set_value-Settled style stored AnimatableProperty.right target r e =
        kept-Fits fl.of_i16 (offset_of fl) IsI16 style.right target laws.i16_kept r.right e
    set_value-Settled style stored AnimatableProperty.bottom target r e =
        kept-Fits fl.of_i16 (offset_of fl) IsI16 style.bottom target laws.i16_kept r.bottom e
    set_value-Settled style stored AnimatableProperty.opacity target r e =
        opacity-Fits style.opacity target r.opacity e
    set_value-Settled style stored AnimatableProperty.all target r e = cc
    set_value-Settled style stored AnimatableProperty.margin_left target r e = cc
    set_value-Settled style stored AnimatableProperty.margin_top target r e = cc
    set_value-Settled style stored AnimatableProperty.margin_right target r e = cc
    set_value-Settled style stored AnimatableProperty.margin_bottom target r e = cc
    set_value-Settled style stored AnimatableProperty.fg target r e = cc
    set_value-Settled style stored AnimatableProperty.bg target r e = cc

    pub set_value-keeps :
        (style : ComputedStyle F ℤ) (stored : StoredPropertyValues F) (prop q : AnimatableProperty)
        (target : F)
        → InRange fl style
        → target_value fl style prop ≡ some target
        → Settled style stored q
        → Settled style (set_value fl stored prop (some target)) q
    set_value-keeps style stored prop q target r e h =
        elim (ℕ_discrete (discriminant prop) (discriminant q)) [
          | yes same ↦
              subst (λ p. Settled style (set_value fl stored prop (some target)) p)
                (same-discriminant prop q same) (set_value-Settled style stored prop target r e)
          | no differ ↦
              subst (λ v. Fits (target_value fl style q) v)
                (sym (get_value-set_other fl stored prop q (some target) differ)) h
        ]
