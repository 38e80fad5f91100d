-- ===== src/Common/Chars.antt =====
-- `char::from_u32` of Rust's standard library.
use Prim.Native.Nat.{ℕ, ◌<◌}
use mathlib.Core.Path.{◌≡◌}
use native.Mathlib.Omega.{arith}
use mathlib.Core.Bool.{Bool, true, ◌&&◌, ◌||◌}
use oxiterm.Common.Checks.{ltb}

-- The surrogates and what is past U+10FFFF are no `char`.
unfoldable pub is_char : ℕ → Bool
is_char v = ltb v 0xd800 || (ltb 0xdfff v && ltb v 0x110000)

pub is_char-lt : (ch : ℕ) → is_char ch ≡ true → ch < 0x110000
unfolding is_char
is_char-lt ch h = ground arith
