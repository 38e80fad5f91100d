-- ===== src/Animation/Whole.antt =====
-- Whole numbers in place of floating-point ones, for tests.
use oxiterm.Common.{
  ℕ, suc, ◌+◌, ◌-◌, ◌/◌, ◌^◌, ◌≡◌, refl, Bool, true, false, arith, ltb, leb, if◌then◌else◌,
}
use oxiterm.Common.Int.{ℤ, pos, negsuc, int_eq}
use oxiterm.Animation.Solvers.{Floats}
use oxiterm.Animation.Sync.{moved}
use oxiterm.Animation.Settled.{FloatLaws}

unfoldable pub nat_diff : ℕ → ℕ → ℤ
nat_diff a b = if leb b a then pos (a - b) else negsuc (b - a - 1)

unfoldable pub int_sub : ℤ → ℤ → ℤ
unfolding nat_diff
int_sub (pos a) (pos b) = nat_diff a b
int_sub (pos a) (negsuc b) = pos (a + b + 1)
int_sub (negsuc a) (pos b) = negsuc (a + b)
int_sub (negsuc a) (negsuc b) = nat_diff b a

abbrev int_abs : ℤ → ℤ
int_abs (pos a) = pos a
int_abs (negsuc a) = pos (suc a)

abbrev int_less : ℤ → ℤ → Bool
int_less (pos a) (pos b) = ltb a b
int_less (pos a) (negsuc b) = false
int_less (negsuc a) (pos b) = true
int_less (negsuc a) (negsuc b) = ltb b a

int_sub_self : (v : ℤ) → int_sub v v ≡ pos 0
unfolding int_sub nat_diff
int_sub_self (pos a) = ground arith
int_sub_self (negsuc a) = ground arith

abbrev size_in : ℤ → ℕ
size_in (pos n) = n
size_in (negsuc n) = 0

abbrev pub whole : Floats ℤ
whole = record {
  lit = λ m k. pos (m / 10 ^ k);
  add = λ a b. int_sub a (int_sub (pos 0) b);
  sub = int_sub;
  mul = λ a b. elim (int_eq a (pos 0)) [ true ↦ pos 0 | false ↦ b ];
  div = λ a b. if int_less a b then pos 0 else pos 1;
  minimum = λ a b. if int_less a b then a else b;
  abs = int_abs;
  round = λ a. a;
  less = int_less;
  equal = int_eq;
  of_u16 = pos;
  of_i16 = λ z. z;
  to_u16 = size_in;
  to_i16 = λ z. z;
  secs = λ n. pos (n / 1000000000);
  bisection_turns = 64;
  neg = int_sub (pos 0);
  sqrt = λ a. a;
  exp = λ a. pos 1;
  cos = λ a. pos 1;
  sin = λ a. pos 0;
  cosh = λ a. pos 1;
  sinh = λ a. pos 0;
}

pub whole-FloatLaws : FloatLaws whole
whole-FloatLaws = record {
  u16_kept = λ n h. refl;
  i16_kept = λ z h. refl;
  still = λ v. rw (moved, int_sub_self v) refl;
}
