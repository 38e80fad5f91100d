-- ===== src/Style.antt =====
-- oxiterm-proto/src/style.rs: the colours of a cell.
pub mod Computed
use oxiterm.Common.{ℕ, ◌<◌}

pub data AnsiColor : Type 0 where
  true_color : ℕ → ℕ → ℕ → AnsiColor
  color256 : ℕ → AnsiColor
  reset : AnsiColor

-- The channels and the palette index are `u8`.
abbrev pub InRange : AnsiColor → Type 0
InRange (true_color r g b) = (r < 256) × (g < 256) × (b < 256)
InRange (color256 n) = n < 256
InRange reset = Unit
