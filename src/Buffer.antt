-- ===== src/Buffer.antt =====
-- oxiterm-renderer/src/render/buffer.rs: the cells of a frame, row by row.
use oxiterm.Common.{
  ℕ, ◌+◌, ◌*◌, Bool, false, ◌&&◌, Option, none, some, List, [], ◌∷◌, set, replicate, ltb,
  if◌then◌else◌,
}
use oxiterm.Style.{AnsiColor}

pub record Cell : Type 0 where
  pub ch : ℕ
  pub fg : AnsiColor
  pub bg : AnsiColor
  pub bold : Bool
  pub underline : Bool
  pub italic : Bool
  pub skip : Bool

-- `Cell::default`
abbrev pub default_cell : Cell
default_cell = record {
  ch = b' ';
  fg = AnsiColor.reset;
  bg = AnsiColor.reset;
  bold = false;
  underline = false;
  italic = false;
  skip = false;
}

pub record CellBuffer : Type 0 where
  pub cells : List Cell
  pub width : ℕ
  pub height : ℕ
  pub graphics : List (List ℕ)

abbrev pub new : ℕ → ℕ → CellBuffer
new width height = record {
  cells = replicate (width * height) default_cell;
  width = width;
  height = height;
  graphics = [];
}

pub flat_idx : CellBuffer → ℕ → ℕ → Option ℕ
flat_idx b x y = if ltb x b.width && ltb y b.height then some (y * b.width + x) else none

-- `CellBuffer::set`
pub set_cell : CellBuffer → ℕ → ℕ → Cell → CellBuffer
unfolding flat_idx
set_cell b x y cell = elim (flat_idx b x y) [
  | none ↦ b
  | some idx ↦ record b { cells = set b.cells idx cell }
]

-- `CellBuffer::clear`
pub blank_cells : List Cell → List Cell
blank_cells [] = []
blank_cells (c ∷ cells) = default_cell ∷ blank_cells cells

pub clear : CellBuffer → CellBuffer
unfolding blank_cells
clear b = record b { cells = blank_cells b.cells; graphics = [] }

-- `CellBuffer::force_dirty`
abbrev pub dirty_cell : Cell
dirty_cell = record default_cell { ch = 0 }

unfoldable pub dirty_cells : List Cell → List Cell
dirty_cells [] = []
dirty_cells (c ∷ cells) = dirty_cell ∷ dirty_cells cells

unfoldable pub force_dirty : CellBuffer → CellBuffer
unfolding dirty_cells
force_dirty b = record b { cells = dirty_cells b.cells; graphics = [] }

pub record DoubleBuffer : Type 0 where
  pub front : CellBuffer
  pub back : CellBuffer

abbrev pub new_double : ℕ → ℕ → DoubleBuffer
new_double width height = record { front = new width height; back = new width height }

-- `DoubleBuffer::swap`, and its `force_dirty`.
pub swap : DoubleBuffer → DoubleBuffer
swap b = record { front = b.back; back = b.front }

pub force_dirty_front : DoubleBuffer → DoubleBuffer
unfolding force_dirty
force_dirty_front b = record b { front = force_dirty b.front }
