-- ===== src/Animation/Loops.antt =====
-- The loops of `sync_transitions` over the properties of a node settle all that its specifications
-- name, and find nothing to launch where all are settled.
use oxiterm.Common.{
  ℕ, ◌≡◌, refl, sym, ap, ◌∙◌, subst, ◌⊎◌, inl, inr, Option, none, some, List, [], ◌∷◌, All,
  Bool-cases, Option-cases,
}
use oxiterm.Common.Int.{ℤ}
use oxiterm.Style.Computed.{AnimatableProperty, TransitionSpec, ComputedStyle}
use oxiterm.Animation.{Launch, props_to_check}
use oxiterm.Animation.Solvers.{Floats}
use oxiterm.Animation.Values.{
  ActiveTransition, StoredPropertyValues, get_value, set_value, target_value,
}
use oxiterm.Animation.Sync.{moved, check_property, check_properties, check_specs}
use oxiterm.Animation.Settled.{
  FloatLaws, InRange, Fits, Settled, AllSettled, set_value-Settled, set_value-keeps,
}

module _ {F : Type 0} (fl : Floats F) where
  -- What some turns make of the stored values: they settle some properties and keep the settled ones.
  pub record Settles (style : ComputedStyle F ℤ) (stored checked : StoredPropertyValues F)
      (props : List AnimatableProperty) : Type 0 where
    pub settled : All (Settled fl style checked) props
    pub keeps : (q : AnimatableProperty) → Settled fl style stored q → Settled fl style checked q

  All-Settled :
      (style : ComputedStyle F ℤ) (stored checked : StoredPropertyValues F)
      (props : List AnimatableProperty)
      → ((q : AnimatableProperty) → Settled fl style stored q → Settled fl style checked q)
      → All (Settled fl style stored) props
      → All (Settled fl style checked) props
  All-Settled style stored checked [] k h = tt
  All-Settled style stored checked (p ∷ props) k h =
      (k p h.0, All-Settled style stored checked props k h.1)

  module _ (ts : List (ActiveTransition F)) (now node_id : ℕ) (style : ComputedStyle F ℤ) where
    abbrev Acc : Type 0
    Acc = StoredPropertyValues F × List (Launch F)

    -- A turn leaves a settled property as it is, and stores the target of another.
    check_property-cases :
        (spec : TransitionSpec F) (acc : Acc) (prop : AnimatableProperty)
        → ((check_property fl ts now node_id style spec acc prop ≡ acc)
            × Settled fl style acc.0 prop)
          ⊎ ((target : F) × (target_value fl style prop ≡ some target)
              × ((check_property fl ts now node_id style spec acc prop).0
                  ≡ set_value fl acc.0 prop (some target)))
    unfolding check_property Fits
    check_property-cases spec (stored, launches) prop =
        elim (Option-cases (target_value fl style prop)) [
          | inl e ↦ inl (rw (check_property, e) refl, rw e tt)
          | inr (target, e) ↦ elim (Option-cases (get_value fl stored prop)) [
            | inl g ↦ inr (target, e, rw (check_property, e, g) refl)
            | inr (prev, g) ↦ elim (Bool-cases (moved fl prev target)) [
              | inl m ↦ inr (target, e, rw (check_property, e, g, m) refl)
              | inr m ↦ inl (rw (check_property, e, g, m) refl, rw (e, g) m)
            ]
          ]
        ]

    -- A settled property is not touched.
    check_property-Settled :
        (spec : TransitionSpec F) (acc : Acc) (prop : AnimatableProperty)
        → Settled fl style acc.0 prop
        → check_property fl ts now node_id style spec acc prop ≡ acc
    unfolding check_property Fits
    check_property-Settled spec (stored, launches) prop h =
        go (target_value fl style prop) (get_value fl stored prop) refl refl h
      where
        go :
            (t v : Option F)
            → target_value fl style prop ≡ t
            → get_value fl stored prop ≡ v
            → Fits fl t v
            → check_property fl ts now node_id style spec (stored, launches) prop
              ≡ (stored, launches)
        go none v e g h = rw (check_property, e) refl
        go (some target) none e g h = absurd h
        go (some target) (some prev) e g h = rw (check_property, e, g, h) refl

    check_properties-Settled :
        (spec : TransitionSpec F) (acc : Acc) (props : List AnimatableProperty)
        → All (Settled fl style acc.0) props
        → check_properties fl ts now node_id style spec acc props ≡ acc
    unfolding check_properties
    check_properties-Settled spec acc [] h = refl
    check_properties-Settled spec acc (p ∷ props) h =
        ap (λ a. check_properties fl ts now node_id style spec a props)
          (check_property-Settled spec acc p h.0)
        ∙ check_properties-Settled spec acc props h.1

    pub check_specs-settled :
        (acc : Acc) (specs : List (TransitionSpec F))
        → AllSettled fl style acc.0 specs
        → check_specs fl ts now node_id style acc specs ≡ acc
    unfolding check_specs
    check_specs-settled acc [] h = refl
    check_specs-settled acc (spec ∷ specs) h =
        ap (λ a. check_specs fl ts now node_id style a specs)
          (check_properties-Settled spec acc (props_to_check spec.property) h.0)
        ∙ check_specs-settled acc specs h.1

    module _ (laws : FloatLaws fl) (r : InRange fl style) where
      check_property-Settles :
          (spec : TransitionSpec F) (acc : Acc) (prop : AnimatableProperty)
          → Settles style acc.0 (check_property fl ts now node_id style spec acc prop).0 (prop ∷ [])
      check_property-Settles spec acc prop = elim (check_property-cases spec acc prop) [
        | inl (e, h) ↦
            subst (λ (a : Acc). Settles style acc.0 a.0 (prop ∷ [])) (sym e)
              (record { settled = (h, tt); keeps = λ q i. i })
        | inr (target, e, f) ↦
            subst (λ a. Settles style acc.0 a (prop ∷ [])) (sym f)
              (record {
                settled = (set_value-Settled fl laws style acc.0 prop target r e, tt);
                keeps = λ q i. set_value-keeps fl laws style acc.0 prop q target r e i;
              })
      ]

      check_properties-Settles :
          (spec : TransitionSpec F) (acc : Acc) (props : List AnimatableProperty)
          → Settles style acc.0 (check_properties fl ts now node_id style spec acc props).0 props
      unfolding check_properties
      check_properties-Settles spec acc [] = record { settled = tt; keeps = λ q i. i }
      check_properties-Settles spec acc (p ∷ props) =
          let first = check_property-Settles spec acc p in
          let rest =
            check_properties-Settles spec (check_property fl ts now node_id style spec acc p)
              props in
          record {
            settled = (rest.keeps p first.settled.0, rest.settled);
            keeps = λ q i. rest.keeps q (first.keeps q i);
          }

      pub check_specs-AllSettled :
          (acc : Acc) (specs : List (TransitionSpec F))
          → AllSettled fl style (check_specs fl ts now node_id style acc specs).0 specs
            × ((q : AnimatableProperty)
                → Settled fl style acc.0 q
                → Settled fl style (check_specs fl ts now node_id style acc specs).0 q)
      unfolding check_specs
      check_specs-AllSettled acc [] = (tt, λ q i. i)
      check_specs-AllSettled acc (spec ∷ specs) =
          let props = props_to_check spec.property in
          let first = check_properties-Settles spec acc props in
          let checked = check_properties fl ts now node_id style spec acc props in
          let (rest, keeps) = check_specs-AllSettled checked specs in
          (
            (
              All-Settled style checked.0 (check_specs fl ts now node_id style checked specs).0
                  props keeps first.settled,
              rest,
            ),
            λ q i. keeps q (first.keeps q i),
          )
