-- ===== src/Diff/Engine/Frame.antt =====
-- The commands of `diff` bring a terminal from the old frame to the new one.
use oxiterm.Common.{
  ℕ, zero, suc, subst, ◌+◌, ◌*◌, ◌^◌, ◌≤◌, ◌<◌, ◌≡◌, ◌⊎◌, refl, sym, ◌∙◌, ap, true, false, Option,
  some, List, get_elem?, length, arith, ltb, get_elem?-lt, Bool-cases, inl, inr, get_elem?-in,
  ltb→lt, ltb→ge, ge→ltb, ℕ_discrete, dec_lt,
}
use oxiterm.Unicode.{computed_width}
use oxiterm.Buffer.{Cell, CellBuffer}
use oxiterm.Diff.{AnsiCommand}
use oxiterm.Diff.Engine.{
  same_cell, plain, Drawing, start, columns, after, draw_cell, draw_row, draw_rows, diff,
}
use oxiterm.Diff.Engine.Terminal.{Device, glyph, Terminal, run, DrawnAsCounted, ShowsCounted}
use oxiterm.Diff.Engine.Steps.{same_cell-eq, shown, CursorKnown}
use oxiterm.Diff.Engine.Cells.{Lands, Drawn, draw_cell-Drawn, after-eq, columns-bound}

rows_le : (w h y : ℕ) → h ≤ y → w * h ≤ y * w
rows_le w zero y h = omega arith
rows_le w (suc n) zero h = elim h [ ]
rows_le w (suc n) (suc y) h = omega (arith, rows_le w n y (omega arith))

rows_ge : (w h y : ℕ) → y ≤ h → y * w ≤ w * h
rows_ge w h zero hy = omega arith
rows_ge w zero (suc y) hy = elim hy [ ]
rows_ge w (suc h) (suc y) hy = omega (arith, rows_ge w h y (omega arith))

index-lt : (w h y x : ℕ) → y < h → x < w → y * w + x < w * h
index-lt w h y x hy hx = omega (arith, rows_ge w h (suc y) hy)

-- A frame as the renderer leaves it: a cell for each place, the characters that are not skipped have
-- a width, and the columns that a wide character reaches over are marked to be skipped. The width
-- leaves room for one more character in a `u16`.
pub record IsDrawable (char_width : ℕ → Option ℕ) (b : CellBuffer) : Type 0 where
  pub size : length b.cells ≡ b.width * b.height
  pub small : b.width + 255 ≤ 2 ^ 16
  pub visible :
      (i : ℕ) (c : Cell)
      → get_elem? b.cells i ≡ some c
      → c.skip ≡ false
      → 0 < computed_width char_width c.ch
  pub covered :
      (x y x' : ℕ) (c c' : Cell)
      → get_elem? b.cells (y * b.width + x) ≡ some c
      → get_elem? b.cells (y * b.width + x') ≡ some c'
      → x < x'
      → x' < x + columns char_width c.ch
      → x' < b.width
      → c'.skip ≡ true

pub some_cell : {a b : Cell} → some a ≡ some b → a ≡ b
some_cell h = cc

true_skip : (c : Cell) → c.skip ≡ true → c.skip ≡ false → ⊥
true_skip c h s = cc

before_row :
    {x x' y y' w : ℕ}
    → (y' < suc y) ⊎ ((y' ≡ suc y) × (x' < 0))
    → w ≤ x
    → x' < w
    → (y' < y) ⊎ ((y' ≡ y) × (x' < x))
before_row h hx hx' = ground arith

behind_row : {x' y y' : ℕ} → (suc y < y') ⊎ ((y' ≡ suc y) × (0 ≤ x')) → y < y'
behind_row h = ground arith

nothing_before : {x' y' : ℕ} → (y' < 0) ⊎ ((y' ≡ 0) × (x' < 0)) → ⊥
nothing_before h = ground arith

module _ (char_width char_width_cjk : ℕ → Option ℕ) (device : Device) (prev next : CellBuffer)
    (lands : Lands char_width char_width_cjk device next.width)
    (drawable : IsDrawable char_width next) (t : Terminal) where
  abbrev at : CellBuffer → ℕ → ℕ → Option Cell
  at b x y = get_elem? b.cells (y * next.width + x)

  abbrev Counted : ℕ → ℕ → Type 0
  Counted x y = DrawnAsCounted char_width device next x y

  -- Behind a cell that is drawn as counted no other one is written over it.
  short_of :
      (x x' y : ℕ) (c c' : Cell)
      → at next x' y ≡ some c'
      → at next x y ≡ some c
      → c'.skip ≡ false
      → Counted x' y
      → x' < x
      → x < next.width
      → c.skip ≡ false
      → x' + device.taken c'.ch ≤ x
  short_of x x' y c c' e' e s' counted lt hx s = elim (dec_lt x (x' + device.taken c'.ch)) [
    | no ge ↦ omega arith
    | yes over ↦
        let same = counted x' c' e' s' (omega arith) (omega (arith, over, lt)) in
        absurd (true_skip c (drawable.covered x' y x c' c e' e lt (omega (arith, over, same)) hx) s)
  ]

  -- A cell that is drawn as counted is out of the columns of one before it.
  clear_of :
      (x x' y : ℕ) (c c' : Cell)
      → at next x' y ≡ some c'
      → at next x y ≡ some c
      → c'.skip ≡ false
      → Counted x' y
      → x < x'
      → x' < next.width
      → c.skip ≡ false
      → x + device.taken c.ch ≤ x'
  clear_of x x' y c c' e' e s' counted lt hx s = elim (dec_lt x' (x + device.taken c.ch)) [
    | no ge ↦ omega arith
    | yes over ↦
        let same = counted x c e s (omega arith) over in
        absurd
          (true_skip c' (drawable.covered x y x' c c' e e' lt (omega (arith, over, same)) hx) s')
  ]

  -- The loops stand at (x, y): the new frame is seen before that place, the old one from it on.
  record Progress (d : Drawing) (x y : ℕ) : Type 0 where
    pub pen : (shown device t d).pen ≡ d.pen
    pub cursor : CursorKnown device t d
    pub done :
        (x' y' : ℕ) (c : Cell)
        → x' < next.width
        → (y' < y) ⊎ ((y' ≡ y) × (x' < x))
        → at next x' y' ≡ some c
        → c.skip ≡ false
        → Counted x' y'
        → (shown device t d).screen x' y' ≡ some (glyph c)
    pub todo :
        (x' y' : ℕ) (c p : Cell)
        → x' < next.width
        → (y < y') ⊎ ((y' ≡ y) × (x ≤ x'))
        → at next x' y' ≡ some c
        → at prev x' y' ≡ some p
        → same_cell c p ≡ true
        → p.skip ≡ false
        → Counted x' y'
        → (shown device t d).screen x' y' ≡ some (glyph p)

  -- The cells of the row up to the end of the one just drawn.
  row_done :
      (d d' : Drawing) (x y : ℕ) (c : Cell)
      → Progress d x y
      → at next x y ≡ some c
      → x < next.width
      → Drawn char_width char_width_cjk device next.width t d d' x y c (at prev x y)
      → (x' : ℕ) (c' : Cell) → x' < next.width
      → x' < x + columns char_width c.ch
      → at next x' y ≡ some c'
      → c'.skip ≡ false
      → Counted x' y
      → (shown device t d').screen x' y ≡ some (glyph c')
  row_done d d' x y c p e hx drawn x' c' hx' near e' s counted = elim (dec_lt x' x) [
    | yes lt ↦
        drawn.others x' y (glyph c') (p.done x' y c' hx' (inr (refl, lt)) e' s counted)
          (λ drawn_here. inr (inr (lt, short_of x x' y c c' e' e s counted lt hx drawn_here)))
    | no ge ↦ elim (ℕ_discrete x' x) [
      | yes same ↦
          let ec : c ≡ c' = some_cell (sym e ∙ ap (λ z. at next z y) (sym same) ∙ e') in
          ap (λ z. (shown device t d').screen z y) same
          ∙ drawn.here (ap (λ (k : Cell). k.skip) ec ∙ s) (λ o eo alike so.
            p.todo x y c o hx (inr (refl, omega arith)) e eo alike so
              (subst (λ z. Counted z y) same counted))
          ∙ ap (λ (k : Cell). some (glyph k)) ec
      | no ne ↦ absurd (true_skip c' (drawable.covered x y x' c c' e e' (omega arith) near hx') s)
    ]
  ]

  cell-Progress :
      (d d' : Drawing) (x y : ℕ) (c : Cell)
      → Progress d x y
      → at next x y ≡ some c
      → x < next.width
      → Drawn char_width char_width_cjk device next.width t d d' x y c (at prev x y)
      → Progress d' (x + columns char_width c.ch) y
  cell-Progress d d' x y c p e hx drawn = record {
    pen = drawn.pen;
    cursor = drawn.cursor;
    done = λ x' y' c' hx' before e' s counted. elim before [
      | inl above ↦
          drawn.others x' y' (glyph c') (p.done x' y' c' hx' (inl above) e' s counted)
            (λ _. inl (λ q. omega arith))
      | inr (same, near) ↦
          ap (λ z. (shown device t d').screen x' z) same
          ∙ row_done d d' x y c p e hx drawn x' c' hx' near (ap (at next x') (sym same) ∙ e') s
              (subst (Counted x') same counted)
    ];
    todo = λ x' y' c' o hx' behind en e' k s counted. elim behind [
      | inl below ↦
          drawn.others x' y' (glyph o) (p.todo x' y' c' o hx' (inl below) en e' k s counted)
            (λ _. inl (λ q. omega arith))
      | inr (same, far) ↦
          let lt : x < x' = omega (arith, columns-bound char_width c.ch, far) in
          drawn.others x' y' (glyph o)
            (p.todo x' y' c' o hx' (inr (same, omega arith)) en e' k s counted)
            (λ drawn_here. inr (
              inl (
                lt,
                clear_of x x' y c c' (ap (at next x') (sym same) ∙ en) e
                    ((same_cell-eq c' o k).1 ∙ s) (subst (Counted x') same counted) lt hx'
                    drawn_here,
              )))
    ];
  }

  row-Progress : (d : Drawing) (x y : ℕ) → next.width ≤ x → Progress d x y → Progress d 0 (suc y)
  row-Progress d x y h p = record {
    pen = p.pen;
    cursor = p.cursor;
    done = λ x' y' c hx before e s counted. p.done x' y' c hx (before_row before h hx) e s counted;
    todo = λ x' y' c o hx behind en e k s counted.
        p.todo x' y' c o hx (inl (behind_row behind)) en e k s counted;
  }

  -- From a place within a row, the loop ends at the end of the row, and neither its fuel runs out
  -- nor an index is out of range.
  abbrev RowDrawn : Option Drawing → ℕ → Type 0
  RowDrawn r y = (d : Drawing) × (r ≡ some d) × Progress d 0 (suc y)

  draw_row-step :
      (fuel x y : ℕ) (d : Drawing) (c : Cell)
      → ltb x next.width ≡ true
      → at next x y ≡ some c
      → draw_row char_width char_width_cjk prev next (suc fuel) y x d
        ≡ draw_row char_width char_width_cjk prev next fuel y
            (after char_width x c.ch)
            (draw_cell char_width char_width_cjk next.width x y c (at prev x y) d)
  unfolding draw_row
  draw_row-step fuel x y d c within e = rw (draw_row, within, e) refl

  draw_row-Progress :
      (fuel x y : ℕ) (d : Drawing)
      → next.width ≤ x + fuel
      → y < next.height
      → Progress d x y
      → RowDrawn (draw_row char_width char_width_cjk prev next fuel y x d) y
  unfolding draw_row
  draw_row-Progress zero x y d enough hy p =
      rw (draw_row, ge→ltb x next.width (omega arith)) (d, refl, row-Progress d x y (omega arith) p)
  draw_row-Progress (suc fuel) x y d enough hy p = elim (Bool-cases (ltb x next.width)) [
    | inr past ↦ rw (draw_row, past) (d, refl, row-Progress d x y (ltb→ge x next.width past) p)
    | inl within ↦
        let hx = ltb→lt x next.width within in
        let (c, e) =
          get_elem?-in next.cells (y * next.width + x)
            (rw drawable.size (index-lt next.width next.height y x hy hx)) in
        let d' = draw_cell char_width char_width_cjk next.width x y c (at prev x y) d in
        let drawn =
          draw_cell-Drawn char_width char_width_cjk device next.width t d x y c (at prev x y) lands
            (drawable.visible _ c e) hx drawable.small p.pen p.cursor in
        subst (λ r. RowDrawn r y)
          (sym (
            draw_row-step fuel x y d c within e
            ∙ ap (λ z. draw_row char_width char_width_cjk prev next fuel y z d')
                (after-eq char_width char_width_cjk device next.width x c.ch hx drawable.small)))
          (draw_row-Progress fuel (x + columns char_width c.ch) y d'
            (omega (arith, columns-bound char_width c.ch)) hy
            (cell-Progress d d' x y c p e hx drawn))
  ]

  draw_rows-Progress :
      (rows y : ℕ) (d : Drawing)
      → y + rows ≡ next.height
      → Progress d 0 y
      → (d' : Drawing) × (draw_rows char_width char_width_cjk prev next rows y d ≡ some d')
        × Progress d' 0 next.height
  unfolding draw_rows
  draw_rows-Progress zero y d e p = (d, refl, subst (λ h. Progress d 0 h) (omega arith) p)
  draw_rows-Progress (suc rows) y d e p =
      let (d', er, p') = draw_row-Progress next.width 0 y d (omega arith) (omega arith) p in
      rw (er, draw_rows) (draw_rows-Progress rows (suc y) d' (omega arith) p')

  -- What `diff` leaves out of the commands is on the screen already.
  abbrev pub Seen : Type 0
  Seen =
      (x y : ℕ) (c p : Cell)
      → x < next.width
      → at next x y ≡ some c
      → at prev x y ≡ some p
      → same_cell c p ≡ true
      → p.skip ≡ false
      → t.screen x y ≡ some (glyph p)

  start-Progress : Seen → t.pen ≡ plain → Progress start 0 0
  unfolding run
  start-Progress seen pen = record {
    pen = pen;
    cursor = λ x y ex ey. cc;
    done = λ x y c hx before ec s counted. absurd (nothing_before before);
    todo = λ x y c p hx behind ec ep same s counted. seen x y c p hx ec ep same s;
  }

  in_rows : (x y : ℕ) (c : Cell) → at next x y ≡ some c → y < next.height
  in_rows x y c e = elim (dec_lt y next.height) [
    | yes lt ↦ lt
    | no ge ↦ absurd (
        omega (
          arith,
          rows_le next.width next.height y (omega arith),
          get_elem?-lt next.cells _ e,
          drawable.size,
        ))
  ]

  pub seen-Shows :
      Seen
      → t.pen ≡ plain
      → (commands : List AnsiCommand) × (diff char_width char_width_cjk prev next ≡ some commands)
        × ShowsCounted char_width device next (run device t commands).screen
  unfolding diff
  seen-Shows seen pen =
      let (d, ed, p) =
        draw_rows-Progress next.height 0 start (omega arith) (start-Progress seen pen) in
      (
        d.commands,
        rw (diff, ed) refl,
        λ x y c hx ec s counted. p.done x y c hx (inl (in_rows x y c ec)) ec s counted,
      )
