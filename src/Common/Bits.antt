-- ===== src/Common/Bits.antt =====
-- Masks of one bit.
use Prim.Native.Nat.{ℕ, ◌/◌, ◌%◌}
use mathlib.Core.Bool.{Bool}
use oxiterm.Common.Checks.{◌==◌}

-- `(flags & m) != 0` for a power of two `m`.
abbrev pub has_bit : ℕ → ℕ → Bool
has_bit flags m = flags / m % 2 == 1
