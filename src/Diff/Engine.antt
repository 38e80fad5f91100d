-- ===== src/Diff/Engine.antt =====
-- `DiffEngine::diff` of diff.rs. The local variables of the loops are the fields of `Drawing`; a
-- coordinate is a `u16`, whose sums wrap. `none` is the panic of an index out of range, or fuel
-- that ran out. The width cache answers with `computed_width`, as Unicode/Cache shows.
pub mod Terminal
pub mod Steps
pub mod Cells
pub mod Frame
pub mod Correct
mod Tests
use oxiterm.Common.{
  ℕ, zero, suc, ◌+◌, ◌*◌, ◌%◌, ◌^◌, Bool, true, false, not, ◌&&◌, ◌||◌, Option, none, some, List,
  [], ◌∷◌, ◌++◌, get_elem?, ltb, leb, ◌==◌, if◌then◌else◌,
}
use oxiterm.Style.{AnsiColor, true_color, color256}
use oxiterm.Unicode.{computed_width, is_ambiguous_width}
use oxiterm.Buffer.{Cell, CellBuffer}
use oxiterm.Diff.{AnsiCommand, move_cursor, set_color, write_char, set_modifiers}

abbrev pub same_bool : Bool → Bool → Bool
same_bool true b = b
same_bool false b = not b

-- The derived `PartialEq` of `AnsiColor` and of `Cell`.
pub same_color : AnsiColor → AnsiColor → Bool
same_color (true_color r g b) (true_color r' g' b') = (r == r') && ((g == g') && (b == b'))
same_color (color256 n) (color256 n') = n == n'
same_color AnsiColor.reset AnsiColor.reset = true
same_color _ _ = false

pub same_cell : Cell → Cell → Bool
unfolding same_color
same_cell a b =
    (a.ch == b.ch)
    && (same_color a.fg b.fg
        && (same_color a.bg b.bg
            && (same_bool a.bold b.bold
                && (same_bool a.underline b.underline
                    && (same_bool a.italic b.italic && same_bool a.skip b.skip)))))

-- `cur_fg`, `cur_bg`, `cur_bold`, `cur_underline` and `cur_italic`
pub record Pen : Type 0 where
  pub fg : AnsiColor
  pub bg : AnsiColor
  pub bold : Bool
  pub underline : Bool
  pub italic : Bool

abbrev pub plain : Pen
plain = record {
  fg = AnsiColor.reset;
  bg = AnsiColor.reset;
  bold = false;
  underline = false;
  italic = false;
}

pub record Drawing : Type 0 where
  pub commands : List AnsiCommand
  pub pen : Pen
  pub cur_x : Option ℕ
  pub cur_y : Option ℕ

abbrev pub start : Drawing
start = record { commands = []; pen = plain; cur_x = none; cur_y = none }

-- `cur_x == Some(x)`
abbrev pub is_at : Option ℕ → ℕ → Bool
is_at none x = false
is_at (some x') x = x' == x

pub place : ℕ → ℕ → Drawing → Drawing
place x y d =
    if is_at d.cur_x x && is_at d.cur_y y
    then d
    else record d { commands = d.commands ++ move_cursor x y ∷ []; cur_y = some y }

pub colour : Cell → Drawing → Drawing
unfolding same_color
colour c d = if same_color c.fg d.pen.fg && same_color c.bg d.pen.bg then d else record d {
  commands = d.commands ++ set_color c.fg c.bg ∷ [];
  pen = record d.pen { fg = c.fg; bg = c.bg };
}

pub modify : Cell → Drawing → Drawing
modify c d =
    if same_bool c.bold d.pen.bold
      && (same_bool c.underline d.pen.underline && same_bool c.italic d.pen.italic)
    then d
    else record d {
      commands = d.commands ++ set_modifiers c.bold c.underline c.italic ∷ [];
      pen = record d.pen { bold = c.bold; underline = c.underline; italic = c.italic };
    }

-- `Some(next_cell) != prev_cell`
pub differs : Cell → Option Cell → Bool
unfolding same_cell
differs c none = true
differs c (some p) = not (same_cell c p)

module _ (char_width : ℕ → Option ℕ) where
  -- `char_w`
  pub columns : ℕ → ℕ
  unfolding computed_width
  columns ch = let char_w = computed_width char_width ch in if char_w == 0 then 1 else char_w

  abbrev pub after : ℕ → ℕ → ℕ
  unfolding columns
  after x ch = (x + columns ch) % 2 ^ 16

module _ (char_width char_width_cjk : ℕ → Option ℕ) where
  pub write : ℕ → ℕ → Cell → Drawing → Drawing
  unfolding after is_ambiguous_width
  write width x c d =
      let written = record d { commands = d.commands ++ write_char c.ch ∷ [] } in
      if is_ambiguous_width char_width char_width_cjk c.ch || leb width (after char_width x c.ch)
      then record written { cur_x = none; cur_y = none }
      else record written { cur_x = some (after char_width x c.ch) }

  -- The body of the inner loop, but for the step of `x`.
  pub draw_cell : ℕ → ℕ → ℕ → Cell → Option Cell → Drawing → Drawing
  unfolding differs place colour modify write
  draw_cell width x y c prev_cell d =
      if c.skip
      then record d { cur_x = none; cur_y = none }
      else if differs c prev_cell
      then write width x c (modify c (colour c (place x y d)))
      else d

  module _ (prev next : CellBuffer) where
    -- `while x < next.width`, with fuel.
    pub draw_row : ℕ → ℕ → ℕ → Drawing → Option Drawing
    unfolding draw_cell after
    draw_row zero y x d = if ltb x next.width then none else some d
    draw_row (suc fuel) y x d = elim (ltb x next.width) [
      | false ↦ some d
      | true ↦
          let idx = y * next.width + x in
          elim (get_elem? next.cells idx) [
            | none ↦ none
            | some c ↦
                draw_row fuel y (after char_width x c.ch)
                  (draw_cell next.width x y c (get_elem? prev.cells idx) d)
          ]
    ]

    -- `for y in 0..next.height`: the rows that are left, and `y`.
    pub draw_rows : ℕ → ℕ → Drawing → Option Drawing
    unfolding draw_row
    draw_rows zero y d = some d
    draw_rows (suc rows) y d = elim (draw_row next.width y 0 d) [
      | none ↦ none
      | some d' ↦ draw_rows rows (suc y) d'
    ]

    pub diff : Option (List AnsiCommand)
    unfolding draw_rows
    diff = elim (draw_rows next.height 0 start) [ none ↦ none | some d ↦ some d.commands ]
