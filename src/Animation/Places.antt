-- ===== src/Animation/Places.antt =====
-- A stored value of one property stays when that of another is set.
use oxiterm.Common.{
  ◌≡◌, ◌≢◌, refl, sym, ap, ◌∙◌, Option, none, some, List, [], ◌∷◌, get_elem?, set, get_elem?-set_ne,
}
use oxiterm.Style.Computed.{AnimatableProperty}
use oxiterm.Arena.{flat}
use oxiterm.Animation.{discriminant}
use oxiterm.Animation.Solvers.{Floats, clamp01}
use oxiterm.Animation.Values.{
  StoredPropertyValues, get_value, set_value, mapped, size_of, offset_of,
}

abbrev properties : List AnimatableProperty
properties =
    AnimatableProperty.all ∷ AnimatableProperty.left ∷ AnimatableProperty.top
    ∷ AnimatableProperty.right ∷ AnimatableProperty.bottom ∷ AnimatableProperty.width
    ∷ AnimatableProperty.height ∷ AnimatableProperty.margin_left ∷ AnimatableProperty.margin_top
    ∷ AnimatableProperty.margin_right ∷ AnimatableProperty.margin_bottom
    ∷ AnimatableProperty.opacity ∷ AnimatableProperty.fg ∷ AnimatableProperty.bg ∷ []

property_at-discriminant : (p : AnimatableProperty) → get_elem? properties (discriminant p) ≡ some p
unfolding discriminant
property_at-discriminant AnimatableProperty.all = refl
property_at-discriminant AnimatableProperty.left = refl
property_at-discriminant AnimatableProperty.top = refl
property_at-discriminant AnimatableProperty.right = refl
property_at-discriminant AnimatableProperty.bottom = refl
property_at-discriminant AnimatableProperty.width = refl
property_at-discriminant AnimatableProperty.height = refl
property_at-discriminant AnimatableProperty.margin_left = refl
property_at-discriminant AnimatableProperty.margin_top = refl
property_at-discriminant AnimatableProperty.margin_right = refl
property_at-discriminant AnimatableProperty.margin_bottom = refl
property_at-discriminant AnimatableProperty.opacity = refl
property_at-discriminant AnimatableProperty.fg = refl
property_at-discriminant AnimatableProperty.bg = refl

pub same-discriminant : (p q : AnimatableProperty) → discriminant p ≡ discriminant q → p ≡ q
same-discriminant p q e =
    let same : some p ≡ some q =
      sym (property_at-discriminant p) ∙ ap (get_elem? properties) e ∙ property_at-discriminant q in
    cc

module _ {F : Type 0} (fl : Floats F) where
  -- The values in the order of the properties.
  abbrev values : StoredPropertyValues F → List (Option F)
  values s =
      none
      ∷ mapped fl.of_i16 s.left
      ∷ mapped fl.of_i16 s.top
      ∷ mapped fl.of_i16 s.right
      ∷ mapped fl.of_i16 s.bottom
      ∷ mapped fl.of_u16 s.width
      ∷ mapped fl.of_u16 s.height
      ∷ none
      ∷ none
      ∷ none
      ∷ none
      ∷ s.opacity
      ∷ none
      ∷ none
      ∷ []

  get_value-values :
      (s : StoredPropertyValues F) (p : AnimatableProperty)
      → get_value fl s p ≡ flat (get_elem? (values s) (discriminant p))
  unfolding get_value discriminant
  get_value-values s AnimatableProperty.all = refl
  get_value-values s AnimatableProperty.left = refl
  get_value-values s AnimatableProperty.top = refl
  get_value-values s AnimatableProperty.right = refl
  get_value-values s AnimatableProperty.bottom = refl
  get_value-values s AnimatableProperty.width = refl
  get_value-values s AnimatableProperty.height = refl
  get_value-values s AnimatableProperty.margin_left = refl
  get_value-values s AnimatableProperty.margin_top = refl
  get_value-values s AnimatableProperty.margin_right = refl
  get_value-values s AnimatableProperty.margin_bottom = refl
  get_value-values s AnimatableProperty.opacity = refl
  get_value-values s AnimatableProperty.fg = refl
  get_value-values s AnimatableProperty.bg = refl

  values-set_value :
      (s : StoredPropertyValues F) (p : AnimatableProperty) (v : Option F)
      → (x : Option F) × (values (set_value fl s p v) ≡ set (values s) (discriminant p) x)
  unfolding set_value discriminant
  values-set_value s AnimatableProperty.left v = (mapped fl.of_i16 (mapped (offset_of fl) v), refl)
  values-set_value s AnimatableProperty.top v = (mapped fl.of_i16 (mapped (offset_of fl) v), refl)
  values-set_value s AnimatableProperty.right v = (mapped fl.of_i16 (mapped (offset_of fl) v), refl)
  values-set_value s AnimatableProperty.bottom v =
      (mapped fl.of_i16 (mapped (offset_of fl) v), refl)
  values-set_value s AnimatableProperty.width v = (mapped fl.of_u16 (mapped (size_of fl) v), refl)
  values-set_value s AnimatableProperty.height v = (mapped fl.of_u16 (mapped (size_of fl) v), refl)
  values-set_value s AnimatableProperty.opacity v = (mapped (clamp01 fl) v, refl)
  values-set_value s AnimatableProperty.all v = (none, refl)
  values-set_value s AnimatableProperty.margin_left v = (none, refl)
  values-set_value s AnimatableProperty.margin_top v = (none, refl)
  values-set_value s AnimatableProperty.margin_right v = (none, refl)
  values-set_value s AnimatableProperty.margin_bottom v = (none, refl)
  values-set_value s AnimatableProperty.fg v = (none, refl)
  values-set_value s AnimatableProperty.bg v = (none, refl)

  pub get_value-set_other :
      (s : StoredPropertyValues F) (p q : AnimatableProperty) (v : Option F)
      → discriminant p ≢ discriminant q
      → get_value fl (set_value fl s p v) q ≡ get_value fl s q
  get_value-set_other s p q v ne =
      let (x, e) = values-set_value s p v in
      get_value-values (set_value fl s p v) q
      ∙ ap (λ l. flat (get_elem? l (discriminant q))) e
      ∙ ap flat (get_elem?-set_ne (values s) x ne)
      ∙ sym (get_value-values s q)
