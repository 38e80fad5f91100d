-- ===== src/Diff/Engine/Correct.antt =====
-- What `diff` is for: after its commands the terminal shows the new frame.
use oxiterm.Common.{
  ℕ, zero, suc, Option, ◌+◌, ◌*◌, ◌≡◌, ◌≢◌, sym, ◌∙◌, ap, some, List, [], ◌∷◌, get_elem?,
}
use oxiterm.Buffer.{Cell, CellBuffer, dirty_cells, force_dirty}
use oxiterm.Diff.{AnsiCommand}
use oxiterm.Diff.Engine.{plain, diff}
use oxiterm.Diff.Engine.Terminal.{Device, Glyph, Terminal, run, ShowsCounted}
use oxiterm.Diff.Engine.Steps.{same_cell-eq}
use oxiterm.Diff.Engine.Cells.{Lands}
use oxiterm.Diff.Engine.Frame.{IsDrawable, some_cell, seen-Shows}

-- A dirty cell has the character 0.
dirty_cells-ch :
    (cells : List Cell) (i : ℕ) (p : Cell) → get_elem? (dirty_cells cells) i ≡ some p → 0 ≡ p.ch
unfolding dirty_cells
dirty_cells-ch [] i p e = cc
dirty_cells-ch (c ∷ cells) zero p e = ap (λ (k : Cell). k.ch) (some_cell e)
dirty_cells-ch (c ∷ cells) (suc i) p e = dirty_cells-ch cells i p e

module _ (char_width char_width_cjk : ℕ → Option ℕ) (device : Device) (prev next : CellBuffer)
    (lands : Lands char_width char_width_cjk device next.width)
    (drawable : IsDrawable char_width next) (t : Terminal) where
  -- Against a frame made dirty, `diff` draws the new frame, with the same exception, on a terminal
  -- that shows anything, if no cell of the new frame holds the character 0. The other conditions are
  -- those on an old frame that is shown, but for the widths, which may differ.
  diff-force_dirty :
      ((i : ℕ) (c : Cell) → get_elem? next.cells i ≡ some c → c.ch ≢ 0)
      → t.pen ≡ plain
      → (commands : List AnsiCommand) × (diff char_width char_width_cjk (force_dirty prev) next
          ≡ some commands)
        × ShowsCounted char_width device next (run device t commands).screen
  unfolding force_dirty
  diff-force_dirty visible pen =
      seen-Shows char_width char_width_cjk device (force_dirty prev) next lands drawable t
        (λ x y c p hx ec ep same s. absurd (
          visible (y * next.width + x) c ec (
            ap (λ (g : Glyph). g.ch) (same_cell-eq c p same).0
            ∙ sym (dirty_cells-ch prev.cells (y * next.width + x) p ep))))
        pen
