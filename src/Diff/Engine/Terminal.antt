-- ===== src/Diff/Engine/Terminal.antt =====
-- What a terminal makes of drawing commands. In how many columns it draws a character, and where its
-- cursor lands behind one, is its own affair, a parameter.
use oxiterm.Common.{
  ℕ, ◌*◌, ◌+◌, ◌<◌, ◌≤◌, ◌≡◌, refl, false, not, ltb, Option, none, some, List, [], ◌∷◌, ◌++◌,
  get_elem?, ◌==◌, if◌then◌else◌,
}
use oxiterm.Buffer.{Cell, CellBuffer}
use oxiterm.Diff.Engine.{Pen, plain, columns}
use oxiterm.Diff.{AnsiCommand, move_cursor, set_color, write_char, set_modifiers}

-- What is seen at a place of the screen.
pub record Glyph : Type 0 where
  pub ch : ℕ
  pub pen : Pen

abbrev pub pen_of : Cell → Pen
pen_of c = record {
  fg = c.fg;
  bg = c.bg;
  bold = c.bold;
  underline = c.underline;
  italic = c.italic;
}

abbrev pub glyph : Cell → Glyph
glyph c = record { ch = c.ch; pen = pen_of c }

-- The screen gives the glyph that starts at a column and a row; `none` where there is a part of a
-- wider glyph, or what is left of one that was written over in part.
pub record Terminal : Type 0 where
  pub col : ℕ
  pub row : ℕ
  pub pen : Pen
  pub screen : ℕ → ℕ → Option Glyph

-- How many columns the terminal draws a character in, and where its cursor lands behind one.
pub record Device : Type 0 where
  pub taken : ℕ → ℕ
  pub landed : ℕ → ℕ → ℕ → ℕ × ℕ

module _ (taken : ℕ → ℕ) where
  -- What is left to the left of a column that is written: a glyph that reaches over it is gone.
  abbrev pub left_of : ℕ → ℕ → Option Glyph → Option Glyph
  left_of col x none = none
  left_of col x (some g) = if ltb col (x + taken g.ch) then none else some g

  -- A glyph is written: the columns behind its first one show no other.
  abbrev pub put : (ℕ → ℕ → Option Glyph) → ℕ → ℕ → Glyph → ℕ → ℕ → Option Glyph
  put screen col row g x y =
      if not (y == row)
      then screen x y
      else if x == col
      then some g
      else if ltb x col
      then left_of col x (screen x y)
      else if ltb x (col + taken g.ch)
      then none
      else screen x y

module _ (device : Device) where
  unfoldable pub apply : Terminal → AnsiCommand → Terminal
  apply t (move_cursor x y) = record t { col = x; row = y }
  apply t (set_color fg bg) = record t { pen = record t.pen { fg = fg; bg = bg } }
  apply t (set_modifiers bold underline italic) = record t {
    pen = record t.pen { bold = bold; underline = underline; italic = italic };
  }
  apply t (write_char ch) =
      let g : Glyph = record { ch = ch; pen = t.pen } in
      record t {
        screen = put device.taken t.screen t.col t.row g;
        col = (device.landed ch t.col t.row).0;
        row = (device.landed ch t.col t.row).1;
      }
  apply t AnsiCommand.reset = record t { pen = plain }

  unfoldable pub run : Terminal → List AnsiCommand → Terminal
  unfolding apply
  run t [] = t
  run t (c ∷ cs) = run (apply t c) cs

  pub run-snoc :
      (t : Terminal) (cs : List AnsiCommand) (c : AnsiCommand)
      → run t (cs ++ c ∷ []) ≡ apply (run t cs) c
  unfolding run
  run-snoc t [] c = refl
  run-snoc t (c' ∷ cs) c = run-snoc (apply t c') cs c

-- The screen shows every cell of the frame that is not the rest of a wide character.
abbrev pub Shows : CellBuffer → (ℕ → ℕ → Option Glyph) → Type 0
Shows b screen =
    (x y : ℕ) (c : Cell)
    → x < b.width
    → get_elem? b.cells (y * b.width + x) ≡ some c
    → c.skip ≡ false
    → screen x y ≡ some (glyph c)

module _ (char_width : ℕ → Option ℕ) (device : Device) where
  -- Each glyph of the frame that the terminal draws over a place, that of the place included, is
  -- drawn as wide as `diff` counts it.
  abbrev pub DrawnAsCounted : CellBuffer → ℕ → ℕ → Type 0
  DrawnAsCounted b x y =
      (x' : ℕ) (c' : Cell)
      → get_elem? b.cells (y * b.width + x') ≡ some c'
      → c'.skip ≡ false
      → x' ≤ x
      → x < x' + device.taken c'.ch
      → device.taken c'.ch ≡ columns char_width c'.ch

  -- The screen shows those of the cells that are drawn as counted.
  abbrev pub ShowsCounted : CellBuffer → (ℕ → ℕ → Option Glyph) → Type 0
  ShowsCounted b screen =
      (x y : ℕ) (c : Cell)
      → x < b.width
      → get_elem? b.cells (y * b.width + x) ≡ some c
      → c.skip ≡ false
      → DrawnAsCounted b x y
      → screen x y ≡ some (glyph c)
