-- ===== src/Diff.antt =====
-- oxiterm-renderer/src/render/diff.rs: the drawing commands.
pub mod Binary
pub mod Engine
pub mod Ansi
mod Tests
use oxiterm.Common.{ℕ, Bool}
use oxiterm.Style.{AnsiColor}

pub data AnsiCommand : Type 0 where
  move_cursor : ℕ → ℕ → AnsiCommand
  set_color : AnsiColor → AnsiColor → AnsiCommand
  write_char : ℕ → AnsiCommand
  set_modifiers : Bool → Bool → Bool → AnsiCommand
  reset : AnsiCommand
