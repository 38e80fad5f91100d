-- ===== src/Animation/Values.antt =====
-- The style properties that animation.rs stores (`StoredPropertyValues`), and the sample of a
-- transition.
use oxiterm.Common.{ℕ, ◌+◌, ◌-◌, Bool, true, false, ◌==◌, ltb, Option, none, some, if◌then◌else◌}
use oxiterm.Common.Int.{ℤ, int_eq}
use oxiterm.Animation.Solvers.{
  Floats, at_most, clamp01, bezier, solve_bezier, new_spring, solve_spring,
}
use oxiterm.Style.Computed.{
  AnimatableProperty, Easing, linear, ease, ease_in, ease_out, ease_in_out, cubic_bezier, spring,
  ComputedStyle,
}

-- An `Instant` and a `Duration` are in nanoseconds.
pub record ActiveTransition (F : Type 0) : Type 0 where
  pub node_id : ℕ
  pub property : AnimatableProperty
  pub start_value : F
  pub end_value : F
  pub start_time : ℕ
  pub duration : ℕ
  pub delay : ℕ
  pub easing : Easing F

pub record StoredPropertyValues (F : Type 0) : Type 0 where
  pub width : Option ℕ
  pub height : Option ℕ
  pub top : Option ℤ
  pub left : Option ℤ
  pub right : Option ℤ
  pub bottom : Option ℤ
  pub opacity : Option F

-- The derived `Default`
abbrev pub no_values : {F : Type 0} → StoredPropertyValues F
no_values = record {
  width = none;
  height = none;
  top = none;
  left = none;
  right = none;
  bottom = none;
  opacity = none;
}

abbrev pub mapped : {A B : Type 0} → (A → B) → Option A → Option B
mapped f none = none
mapped f (some a) = some (f a)

module _ {F : Type 0} (fl : Floats F) where
  -- `val.round().max(0.0) as u16`: the cast takes a negative number to 0, as the maximum does.
  abbrev pub size_of : F → ℕ
  size_of v = fl.to_u16 (fl.round v)

  abbrev pub offset_of : F → ℤ
  offset_of v = fl.to_i16 (fl.round v)

  unfoldable pub evaluate_easing : Easing F → F → F → F × Bool
  unfolding solve_bezier solve_spring new_spring
  evaluate_easing linear t_ratio elapsed_secs =
      (clamp01 fl t_ratio, at_most fl (fl.lit 1 0) t_ratio)
  evaluate_easing ease t_ratio elapsed_secs = (
    solve_bezier fl (bezier (fl.lit 25 2) (fl.lit 1 1) (fl.lit 25 2) (fl.lit 1 0)) t_ratio,
    at_most fl (fl.lit 1 0) t_ratio,
  )
  evaluate_easing ease_in t_ratio elapsed_secs = (
    solve_bezier fl (bezier (fl.lit 42 2) (fl.lit 0 0) (fl.lit 1 0) (fl.lit 1 0)) t_ratio,
    at_most fl (fl.lit 1 0) t_ratio,
  )
  evaluate_easing ease_out t_ratio elapsed_secs = (
    solve_bezier fl (bezier (fl.lit 0 0) (fl.lit 0 0) (fl.lit 58 2) (fl.lit 1 0)) t_ratio,
    at_most fl (fl.lit 1 0) t_ratio,
  )
  evaluate_easing ease_in_out t_ratio elapsed_secs = (
    solve_bezier fl (bezier (fl.lit 42 2) (fl.lit 0 0) (fl.lit 58 2) (fl.lit 1 0)) t_ratio,
    at_most fl (fl.lit 1 0) t_ratio,
  )
  evaluate_easing (cubic_bezier x1 y1 x2 y2) t_ratio elapsed_secs =
      (solve_bezier fl (bezier x1 y1 x2 y2) t_ratio, at_most fl (fl.lit 1 0) t_ratio)
  evaluate_easing (spring stiffness damping mass) t_ratio elapsed_secs =
      solve_spring fl (new_spring fl stiffness damping mass) elapsed_secs

  t_ratio_of : F → F → F
  t_ratio_of elapsed_secs total_secs =
      if at_most fl total_secs (fl.lit 0 0)
      then fl.lit 1 0
      else fl.minimum (fl.div elapsed_secs total_secs) (fl.lit 1 0)

  interpolated : ActiveTransition F → F × Bool → F × Bool
  interpolated t (progress, finished) =
      if finished
      then (t.end_value, true)
      else (fl.add t.start_value (fl.mul (fl.sub t.end_value t.start_value) progress), false)

  unfoldable pub sample : ActiveTransition F → ℕ → F × Bool
  unfolding evaluate_easing t_ratio_of interpolated
  sample t now =
      if ltb now (t.start_time + t.delay)
      then (t.start_value, false)
      else let elapsed_secs = fl.secs (now - (t.start_time + t.delay)) in
        interpolated t
          (evaluate_easing t.easing (t_ratio_of elapsed_secs (fl.secs t.duration)) elapsed_secs)

  unfoldable pub get_value : StoredPropertyValues F → AnimatableProperty → Option F
  get_value s AnimatableProperty.width = mapped fl.of_u16 s.width
  get_value s AnimatableProperty.height = mapped fl.of_u16 s.height
  get_value s AnimatableProperty.top = mapped fl.of_i16 s.top
  get_value s AnimatableProperty.left = mapped fl.of_i16 s.left
  get_value s AnimatableProperty.right = mapped fl.of_i16 s.right
  get_value s AnimatableProperty.bottom = mapped fl.of_i16 s.bottom
  get_value s AnimatableProperty.opacity = s.opacity
  get_value s _ = none

  unfoldable pub set_value :
      StoredPropertyValues F → AnimatableProperty → Option F → StoredPropertyValues F
  set_value s AnimatableProperty.width val = record s { width = mapped size_of val }
  set_value s AnimatableProperty.height val = record s { height = mapped size_of val }
  set_value s AnimatableProperty.top val = record s { top = mapped offset_of val }
  set_value s AnimatableProperty.left val = record s { left = mapped offset_of val }
  set_value s AnimatableProperty.right val = record s { right = mapped offset_of val }
  set_value s AnimatableProperty.bottom val = record s { bottom = mapped offset_of val }
  set_value s AnimatableProperty.opacity val = record s { opacity = mapped (clamp01 fl) val }
  set_value s _ val = s

  -- The `target_val` of `sync_transitions`.
  unfoldable pub target_value : ComputedStyle F ℤ → AnimatableProperty → Option F
  target_value s AnimatableProperty.width = mapped fl.of_u16 s.width
  target_value s AnimatableProperty.height = mapped fl.of_u16 s.height
  target_value s AnimatableProperty.top = mapped fl.of_i16 s.top
  target_value s AnimatableProperty.left = mapped fl.of_i16 s.left
  target_value s AnimatableProperty.right = mapped fl.of_i16 s.right
  target_value s AnimatableProperty.bottom = mapped fl.of_i16 s.bottom
  target_value s AnimatableProperty.opacity = s.opacity
  target_value s _ = none

  -- `==` on options, by that on their values.
  abbrev pub same_option : {A : Type 0} → (A → A → Bool) → Option A → Option A → Bool
  same_option same none none = true
  same_option same (some a) (some b) = same a b
  same_option same _ _ = false

  -- The `style_modified` of `tick`, with the style: a value that is there already is not written.
  unfoldable pub write_value : AnimatableProperty → F → ComputedStyle F ℤ → ComputedStyle F ℤ × Bool
  write_value AnimatableProperty.width val s =
      if same_option ◌==◌ s.width (some (size_of val))
      then (s, false)
      else (record s { width = some (size_of val) }, true)
  write_value AnimatableProperty.height val s =
      if same_option ◌==◌ s.height (some (size_of val))
      then (s, false)
      else (record s { height = some (size_of val) }, true)
  write_value AnimatableProperty.top val s =
      if same_option int_eq s.top (some (offset_of val))
      then (s, false)
      else (record s { top = some (offset_of val) }, true)
  write_value AnimatableProperty.left val s =
      if same_option int_eq s.left (some (offset_of val))
      then (s, false)
      else (record s { left = some (offset_of val) }, true)
  write_value AnimatableProperty.right val s =
      if same_option int_eq s.right (some (offset_of val))
      then (s, false)
      else (record s { right = some (offset_of val) }, true)
  write_value AnimatableProperty.bottom val s =
      if same_option int_eq s.bottom (some (offset_of val))
      then (s, false)
      else (record s { bottom = some (offset_of val) }, true)
  write_value AnimatableProperty.opacity val s =
      if same_option fl.equal s.opacity (some (clamp01 fl val))
      then (s, false)
      else (record s { opacity = some (clamp01 fl val) }, true)
  write_value _ val s = (s, false)

  -- `if let Some(w) = stored.width { node.style.width = Some(w); }` and the other properties.
  abbrev or_else : {A : Type 0} → Option A → Option A → Option A
  or_else none b = b
  or_else (some a) b = some a

  unfoldable pub restored : StoredPropertyValues F → ComputedStyle F ℤ → ComputedStyle F ℤ
  restored stored s = record s {
    width = or_else stored.width s.width;
    height = or_else stored.height s.height;
    top = or_else stored.top s.top;
    left = or_else stored.left s.left;
    right = or_else stored.right s.right;
    bottom = or_else stored.bottom s.bottom;
    opacity = or_else stored.opacity s.opacity;
  }
