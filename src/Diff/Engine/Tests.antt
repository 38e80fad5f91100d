-- ===== src/Diff/Engine/Tests.antt =====
-- Frames drawn over empty ones.
use oxiterm.Common.{ℕ, ◌+◌, ◌≡◌, refl, Option, none, some, ◌==◌, if◌then◌else◌, List, [], ◌∷◌}
use oxiterm.Style.{AnsiColor, color256}
use oxiterm.Buffer.{Cell, CellBuffer, default_cell, new}
use oxiterm.Diff.{move_cursor, set_color, write_char}
use oxiterm.Diff.Engine.{plain, diff}
use oxiterm.Diff.Engine.Terminal.{Device, glyph, Terminal, apply, run}

-- A width table: every character takes one column.
abbrev narrow : ℕ → Option ℕ
narrow ch = some 1

abbrev red_a : Cell
red_a = record default_cell { ch = b'a'; fg = color256 9 }

abbrev before : CellBuffer
before = new 2 1

abbrev next_frame : CellBuffer
next_frame = record before { cells = default_cell ∷ red_a ∷ [] }

-- A terminal that draws every character in one column.
abbrev on_row : Device
on_row = record { taken = λ ch. 1; landed = λ ch x y. (x + 1, y) }

abbrev blank : Terminal
blank = record { col = 0; row = 0; pen = plain; screen = λ x y. some (glyph default_cell) }

drawn_commands :
    diff narrow narrow before next_frame
    ≡ some (move_cursor 1 0 ∷ set_color (color256 9) AnsiColor.reset ∷ write_char b'a' ∷ [])
unfolding diff
drawn_commands = refl

-- A width table with an arrow, which East Asian terminals draw in two columns, and such a terminal.
abbrev narrow_or_wide : ℕ → Option ℕ
narrow_or_wide ch = some (if ch == 0x2192 then 2 else 1)

abbrev wide_arrows : Device
wide_arrows = record {
  taken = λ ch. if ch == 0x2192 then 2 else 1;
  landed = λ ch x y. (x + (if ch == 0x2192 then 2 else 1), y);
}

abbrev letter : ℕ → Cell
letter ch = record default_cell { ch = ch }

abbrev row_of : List Cell → CellBuffer
row_of cells = record (new 3 1) { cells = cells }

abbrev old_row : CellBuffer
old_row = row_of (letter b'X' ∷ letter b'B' ∷ letter b'C' ∷ [])

abbrev arrow_row : CellBuffer
arrow_row = row_of (letter 0x2192 ∷ letter b'B' ∷ letter b'C' ∷ [])

-- The arrow is written alone: the letter behind it, which is as it was, is not drawn again.
arrow_commands :
    diff narrow narrow_or_wide old_row arrow_row ≡ some (move_cursor 0 0 ∷ write_char 0x2192 ∷ [])
unfolding diff
arrow_commands = refl

abbrev old_screen : Terminal
old_screen = record blank {
  screen = λ x y. some (glyph (letter (if x == 0 then b'X' else if x == 1 then b'B' else b'C')));
}

-- That letter is gone behind the commands, and the one behind it is there.
arrow-overflows :
    ((run wide_arrows old_screen (move_cursor 0 0 ∷ write_char 0x2192 ∷ [])).screen 1 0 ≡ none)
    × ((run wide_arrows old_screen (move_cursor 0 0 ∷ write_char 0x2192 ∷ [])).screen 2 0
        ≡ some (glyph (letter b'C')))
unfolding run apply
arrow-overflows = (refl, refl)
