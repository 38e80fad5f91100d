-- ===== src/Animation/Solvers.antt =====
-- What animation.rs computes with: floating-point numbers of a parameter type, the cubic Bézier
-- curves and the damped springs.
use oxiterm.Common.{ℕ, zero, suc, Bool, true, false, ◌&&◌, ◌||◌, Option, none, some, if◌then◌else◌}
use oxiterm.Common.Int.{ℤ}

-- The operations on `f32` that the code uses. `lit m k` is the literal m / 10^k, `secs` is
-- `Duration::as_secs_f32`, the casts are those of `as`.
pub record Floats (F : Type 0) : Type 0 where
  pub lit : ℕ → ℕ → F
  pub add : F → F → F
  pub sub : F → F → F
  pub mul : F → F → F
  pub div : F → F → F
  pub minimum : F → F → F
  pub neg : F → F
  pub abs : F → F
  pub round : F → F
  pub sqrt : F → F
  pub exp : F → F
  pub cos : F → F
  pub sin : F → F
  pub cosh : F → F
  pub sinh : F → F
  pub less : F → F → Bool
  pub equal : F → F → Bool
  pub of_u16 : ℕ → F
  pub of_i16 : ℤ → F
  pub to_u16 : F → ℕ
  pub to_i16 : F → ℤ
  pub secs : ℕ → F
  pub bisection_turns : ℕ

pub record CubicBezierSolver (F : Type 0) : Type 0 where
  pub x1 : F
  pub y1 : F
  pub x2 : F
  pub y2 : F

abbrev pub bezier : {F : Type 0} → F → F → F → F → CubicBezierSolver F
bezier x1 y1 x2 y2 = record { x1 = x1; y1 = y1; x2 = x2; y2 = y2 }

pub record SpringSolver (F : Type 0) : Type 0 where
  pub stiffness : F
  pub damping : F
  pub mass : F

module _ {F : Type 0} (fl : Floats F) where
  -- `a <= b` and `v.clamp(0.0, 1.0)`
  abbrev pub at_most : F → F → Bool
  at_most a b = if fl.less a b then true else fl.equal a b

  abbrev pub clamp01 : F → F
  clamp01 v =
      if fl.less v (fl.lit 0 0)
      then fl.lit 0 0
      else if fl.less (fl.lit 1 0) v
      then fl.lit 1 0
      else v

  abbrev mul3 : F → F → F → F
  mul3 a b c = fl.mul (fl.mul a b) c

  abbrev mul4 : F → F → F → F → F
  mul4 a b c d = fl.mul (mul3 a b c) d

  -- `3.0 * inv_t * inv_t * t * a + 3.0 * inv_t * t * t * b + t * t * t`
  polynomial : F → F → F → F
  polynomial a b t =
      let inv_t = fl.sub (fl.lit 1 0) t in
      fl.add
        (fl.add (fl.mul (mul4 (fl.lit 3 0) inv_t inv_t t) a)
          (fl.mul (mul4 (fl.lit 3 0) inv_t t t) b))
        (mul3 t t t)

  sample_x : CubicBezierSolver F → F → F
  unfolding polynomial
  sample_x s t = polynomial s.x1 s.x2 t

  sample_y : CubicBezierSolver F → F → F
  unfolding polynomial
  sample_y s t = polynomial s.y1 s.y2 t

  sample_x_derivative : CubicBezierSolver F → F → F
  sample_x_derivative s t =
      let inv_t = fl.sub (fl.lit 1 0) t in
      fl.add
        (fl.add (mul4 (fl.lit 3 0) inv_t inv_t s.x1) (mul4 (fl.lit 6 0) inv_t t (fl.sub s.x2 s.x1)))
        (mul4 (fl.lit 3 0) t t (fl.sub (fl.lit 1 0) s.x2))

  -- The loop of Newton and Raphson: the value it returns, or `none` if it did not converge.
  newton : CubicBezierSolver F → F → ℕ → F → Option F
  unfolding sample_x sample_y sample_x_derivative
  newton s x zero t = none
  newton s x (suc turns) t =
      let current_x = fl.sub (sample_x s t) x in
      let d = sample_x_derivative s t in
      elim (fl.less (fl.abs current_x) (fl.lit 1 5)) [
        | true ↦ some (sample_y s t)
        | false ↦ elim (fl.less (fl.abs d) (fl.lit 1 6)) [
          | true ↦ none
          | false ↦ newton s x turns (clamp01 (fl.sub t (fl.div current_x d)))
        ]
      ]

  -- The loop of the bisection, which has no bound in the source: it is cut off behind some turns.
  bisect : CubicBezierSolver F → F → ℕ → F → F → F → F
  unfolding sample_x sample_y
  bisect s x zero t0 t1 t = sample_y s t
  bisect s x (suc turns) t0 t1 t =
      let current_x = sample_x s t in
      elim (fl.less t0 t1) [
        | false ↦ sample_y s t
        | true ↦ elim (fl.less (fl.abs (fl.sub current_x x)) (fl.lit 1 5)) [
          | true ↦ sample_y s t
          | false ↦ elim (fl.less current_x x) [
            | true ↦ bisect s x turns t t1 (fl.mul (fl.add t1 t) (fl.lit 5 1))
            | false ↦ bisect s x turns t0 t (fl.mul (fl.add t t0) (fl.lit 5 1))
          ]
        ]
      ]

  unfoldable pub solve_bezier : CubicBezierSolver F → F → F
  unfolding newton bisect
  solve_bezier s x = elim (at_most x (fl.lit 0 0)) [
    | true ↦ fl.lit 0 0
    | false ↦ elim (at_most (fl.lit 1 0) x) [
      | true ↦ fl.lit 1 0
      | false ↦ elim (newton s x 8 x) [
        | some y ↦ y
        | none ↦ bisect s x fl.bisection_turns (fl.lit 0 0) (fl.lit 1 0) x
      ]
    ]
  ]

  unfoldable pub new_spring : F → F → F → SpringSolver F
  new_spring stiffness damping mass = record {
    stiffness = if at_most stiffness (fl.lit 0 0) then fl.lit 100 0 else stiffness;
    damping = if fl.less damping (fl.lit 0 0) then fl.lit 10 0 else damping;
    mass = if at_most mass (fl.lit 0 0) then fl.lit 1 0 else mass;
  }

  -- The value and the velocity of an underdamped, a critically damped and an overdamped spring.
  underdamped : F → F → F → F × F
  underdamped w0 zeta t =
      let wd = fl.mul w0 (fl.sqrt (fl.sub (fl.lit 1 0) (fl.mul zeta zeta))) in
      let decay = fl.exp (mul3 (fl.neg zeta) w0 t) in
      let cos_w = fl.cos (fl.mul wd t) in
      let sin_w = fl.sin (fl.mul wd t) in
      let ratio = fl.div (fl.mul zeta w0) wd in
      let envelope = fl.add cos_w (fl.mul ratio sin_w) in
      (
        fl.sub (fl.lit 1 0) (fl.mul decay envelope),
        fl.mul decay
            (fl.sub (fl.add (mul3 zeta w0 envelope) (fl.mul wd sin_w)) (mul3 ratio wd cos_w)),
      )

  critically_damped : F → F → F × F
  critically_damped w0 t =
      let decay = fl.exp (fl.mul (fl.neg w0) t) in
      (fl.sub (fl.lit 1 0) (fl.mul decay (fl.add (fl.lit 1 0) (fl.mul w0 t))), mul4 decay w0 w0 t)

  overdamped : F → F → F → F × F
  overdamped w0 zeta t =
      let wd = fl.mul w0 (fl.sqrt (fl.sub (fl.mul zeta zeta) (fl.lit 1 0))) in
      let decay = fl.exp (mul3 (fl.neg zeta) w0 t) in
      let envelope =
        fl.add (fl.cosh (fl.mul wd t))
          (fl.mul (fl.div (fl.mul zeta w0) wd) (fl.sinh (fl.mul wd t))) in
      (fl.sub (fl.lit 1 0) (fl.mul decay envelope), fl.lit 0 0)

  spring_motion : F → F → F → F × F
  unfolding underdamped critically_damped overdamped
  spring_motion w0 zeta t =
      if fl.less zeta (fl.lit 999 3)
      then underdamped w0 zeta t
      else if at_most zeta (fl.lit 1001 3)
      then critically_damped w0 t
      else overdamped w0 zeta t

  settling : F × F → F → F × Bool
  settling (progress, velocity) t =
      if (fl.less (fl.abs (fl.sub progress (fl.lit 1 0))) (fl.lit 3 3)
          && fl.less (fl.abs velocity) (fl.lit 5 3))
        || fl.less (fl.lit 2 0) t
      then (fl.lit 1 0, true)
      else (progress, false)

  unfoldable pub solve_spring : SpringSolver F → F → F × Bool
  unfolding spring_motion settling
  solve_spring s t_secs =
      if at_most t_secs (fl.lit 0 0)
      then (fl.lit 0 0, false)
      else let w0 = fl.sqrt (fl.div s.stiffness s.mass) in
        let zeta = fl.div s.damping (fl.mul (fl.lit 2 0) (fl.sqrt (fl.mul s.mass s.stiffness))) in
        settling (spring_motion w0 zeta t_secs) t_secs
