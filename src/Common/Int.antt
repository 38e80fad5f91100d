-- ===== src/Common/Int.antt =====
-- Integers: `negsuc n` is -(n + 1). An `i64` is one within its range.
use Prim.Native.Nat.{ℕ, zero, suc, ◌+◌, ◌-◌, ◌<◌, ◌^◌}
use mathlib.Core.Bool.{Bool, false}
use oxiterm.Common.Checks.{◌==◌, ltb, if◌then◌else◌}

pub data ℤ : Type 0 where
  pos : ℕ → ℤ
  negsuc : ℕ → ℤ

abbrev pub int_eq : ℤ → ℤ → Bool
int_eq (pos a) (pos b) = a == b
int_eq (negsuc a) (negsuc b) = a == b
int_eq _ _ = false

-- `i64::saturating_add(1)` and `saturating_sub(1)`.
unfoldable pub saturating_inc : ℤ → ℤ
saturating_inc (pos n) = if ltb n (2 ^ 63 - 1) then pos (n + 1) else pos (2 ^ 63 - 1)
saturating_inc (negsuc zero) = pos 0
saturating_inc (negsuc (suc n)) = negsuc n

unfoldable pub saturating_dec : ℤ → ℤ
saturating_dec (pos zero) = negsuc 0
saturating_dec (pos (suc n)) = pos n
saturating_dec (negsuc n) = if ltb n (2 ^ 63 - 1) then negsuc (n + 1) else negsuc (2 ^ 63 - 1)

abbrev pub IsI64 : ℤ → Type 0
IsI64 (pos n) = n < 2 ^ 63
IsI64 (negsuc n) = n < 2 ^ 63
