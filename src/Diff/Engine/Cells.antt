-- ===== src/Diff/Engine/Cells.antt =====
-- What the drawing of one cell does to the terminal that runs the commands.
use oxiterm.Common.{
  ℕ, ◌+◌, ◌^◌, ◌≤◌, ◌<◌, ◌≡◌, ◌≢◌, ◌⊎◌, refl, subst, sym, ◌∙◌, ap, Bool, true, false, not, ◌||◌,
  Option, none, some, [], ◌∷◌, ◌++◌, arith, leb, Bool-cases, inl, inr,
}
use oxiterm.Unicode.{computed_width, is_ambiguous_width}
use oxiterm.Buffer.{Cell}
use oxiterm.Diff.{write_char}
use oxiterm.Diff.Engine.{
  same_cell, Drawing, place, colour, modify, differs, columns, after, write, draw_cell,
}
use oxiterm.Diff.Engine.Terminal.{Device, Glyph, glyph, pen_of, Terminal, put, apply, run, run-snoc}
use oxiterm.Diff.Engine.Steps.{same_cell-eq, shown, CursorKnown, Brushed, draw-Brushed}

neither : (a b : Bool) → (a || b) ≡ false → (a ≡ false) × (b ≡ false)
neither true b h = cc
neither false b h = (refl, h)

pub columns-bound :
    (char_width : ℕ → Option ℕ) (ch : ℕ)
    → (0 < columns char_width ch) × (columns char_width ch ≤ 255)
unfolding columns computed_width
columns-bound char_width ch = ground arith

ltw : (a : ℕ) {width : ℕ} → leb width a ≡ false → a < width
ltw a h = ground arith

columns-wide :
    (char_width : ℕ → Option ℕ) (ch : ℕ)
    → 0 < computed_width char_width ch
    → columns char_width ch ≡ computed_width char_width ch
unfolding columns
columns-wide char_width ch h = ground arith

is_true : (b : Bool) → not b ≡ false → b ≡ true
is_true true h = refl
is_true false h = cc

some_eq : {a b : ℕ} → some a ≡ some b → a ≡ b
some_eq h = cc

module _ (char_width char_width_cjk : ℕ → Option ℕ) (device : Device) (width : ℕ) where
  -- Behind a character that has a width, and not an ambiguous one, the terminal's cursor is as many
  -- columns further as the character is wide, if that is within the row.
  abbrev pub Lands : Type 0
  Lands =
      (ch x y : ℕ)
      → 0 < computed_width char_width ch
      → is_ambiguous_width char_width char_width_cjk ch ≡ false
      → x + computed_width char_width ch < width
      → device.landed ch x y ≡ (x + computed_width char_width ch, y)

  pub after-eq :
      (x ch : ℕ)
      → x < width
      → width + 255 ≤ 2 ^ 16
      → after char_width x ch ≡ x + columns char_width ch
  unfolding after
  after-eq x ch h small = (omega (arith, (columns-bound char_width ch).1))

  module _ (t : Terminal) where
    sent :
        (d d0 : Drawing) (x y : ℕ) (c : Cell)
        → Brushed device t d0 d x y c
        → run device t (d.commands ++ write_char c.ch ∷ []) ≡ record (shown device t d0) {
          col = (device.landed c.ch x y).0;
          row = (device.landed c.ch x y).1;
          pen = pen_of c;
          screen = put device.taken (shown device t d0).screen x y (glyph c);
        }
    unfolding apply
    sent d d0 x y c b =
        run-snoc device t d.commands (write_char c.ch)
        ∙ ap (λ s. apply device s (write_char c.ch)) b.terminal

    write-shown :
        (d d0 : Drawing) (x y : ℕ) (c : Cell)
        → Brushed device t d0 d x y c
        → shown device t (write char_width char_width_cjk width x c d)
          ≡ record (shown device t d0) {
            col = (device.landed c.ch x y).0;
            row = (device.landed c.ch x y).1;
            pen = pen_of c;
            screen = put device.taken (shown device t d0).screen x y (glyph c);
          }
    unfolding write apply
    write-shown d d0 x y c b =
        elim (Bool-cases (
          is_ambiguous_width char_width char_width_cjk c.ch
          || leb width (after char_width x c.ch))) [
            | inl e ↦ rw e (sent d d0 x y c b)
            | inr e ↦ rw e (sent d d0 x y c b)
          ]

    write-pen :
        (d : Drawing) (x : ℕ) (c : Cell) → d.pen ≡ (write char_width char_width_cjk width x c d).pen
    unfolding write
    write-pen d x c = ground arith

    write-cursor :
        (d d0 : Drawing) (x y : ℕ) (c : Cell)
        → Lands
        → 0 < computed_width char_width c.ch
        → x < width
        → width + 255 ≤ 2 ^ 16
        → Brushed device t d0 d x y c
        → (shown device t (write char_width char_width_cjk width x c d)).col
          ≡ (device.landed c.ch x y).0
        → (shown device t (write char_width char_width_cjk width x c d)).row
          ≡ (device.landed c.ch x y).1
        → CursorKnown device t (write char_width char_width_cjk width x c d)
    unfolding write
    write-cursor d d0 x y c lands wide hx small b ecol erow =
        elim (Bool-cases (
          is_ambiguous_width char_width char_width_cjk c.ch
          || leb width (after char_width x c.ch))) [
            | inl e ↦ rw e (λ x' y' ex ey. cc)
            | inr e ↦
                let (na, nw) = neither (is_ambiguous_width char_width char_width_cjk c.ch) _ e in
                let ea = after-eq x c.ch hx small in
                let ew = columns-wide char_width c.ch wide in
                let l =
                  subst (λ n. x + n < width → device.landed c.ch x y ≡ (x + n, y)) (sym ew)
                    (lands c.ch x y wide na) (ltw (x + columns char_width c.ch) (rw (sym ea) nw)) in
                let d' = write char_width char_width_cjk width x c d in
                let wx : d'.cur_x ≡ some (after char_width x c.ch) = rw e refl in
                let wy : d'.cur_y ≡ some y = rw e b.cur_y in
                λ x' y' ex ey. (
                  ecol ∙ ap (λ (p : ℕ × ℕ). p.0) l ∙ sym ea ∙ some_eq (sym wx ∙ ex),
                  erow ∙ ap (λ (p : ℕ × ℕ). p.1) l ∙ some_eq (sym wy ∙ ey),
                )
          ]

    -- A glyph at a place is out of the way of one that is written: it is in another row, behind the
    -- columns that are drawn, or before them and does not reach over the first one.
    abbrev pub Apart : ℕ → ℕ → Cell → ℕ → ℕ → Glyph → Type 0
    Apart x y c x' y' g =
        (y' ≢ y)
        ⊎ (((x < x') × (x + device.taken c.ch ≤ x')) ⊎ ((x' < x) × (x' + device.taken g.ch ≤ x)))

    -- What the drawing of one cell does: the terminal's pen and cursor stay known, the cell is seen
    -- where it was not yet, and no glyph changes that is out of its way.
    pub record Drawn (d d' : Drawing) (x y : ℕ) (c : Cell) (prev_cell : Option Cell) : Type 0 where
      pub pen : (shown device t d').pen ≡ d'.pen
      pub cursor : CursorKnown device t d'
      pub here :
          c.skip ≡ false
          → ((p : Cell)
              → prev_cell ≡ some p
              → same_cell c p ≡ true
              → p.skip ≡ false
              → (shown device t d).screen x y ≡ some (glyph p))
          → (shown device t d').screen x y ≡ some (glyph c)
      pub others :
          (x' y' : ℕ) (g : Glyph)
          → (shown device t d).screen x' y' ≡ some g
          → (c.skip ≡ false → Apart x y c x' y' g)
          → (shown device t d').screen x' y' ≡ some g

    put_self :
        (screen : ℕ → ℕ → Option Glyph) (x y : ℕ) (g : Glyph)
        → put device.taken screen x y g x y ≡ some g
    put_self screen x y g = ground arith

    put_other :
        (screen : ℕ → ℕ → Option Glyph) (x y : ℕ) (c : Cell) (x' y' : ℕ) (g : Glyph)
        → screen x' y' ≡ some g
        → Apart x y c x' y' g
        → put device.taken screen x y (glyph c) x' y' ≡ some g
    put_other screen x y c x' y' g e (inl ne) = rw e (ground arith)
    put_other screen x y c x' y' g e (inr (inl far)) = rw e (ground arith)
    put_other screen x y c x' y' g e (inr (inr near)) = rw e (ground arith)

    -- A cell that does not differ from the old one is seen where that was.
    kept :
        (d : Drawing) (x y : ℕ) (c : Cell) (prev_cell : Option Cell)
        → differs c prev_cell ≡ false
        → c.skip ≡ false
        → ((p : Cell)
            → prev_cell ≡ some p
            → same_cell c p ≡ true
            → p.skip ≡ false
            → (shown device t d).screen x y ≡ some (glyph p))
        → (shown device t d).screen x y ≡ some (glyph c)
    unfolding differs
    kept d x y c none e s h = absurd (cc)
    kept d x y c (some p) e s h =
        let same = is_true (same_cell c p) e in
        let (g, k) = same_cell-eq c p same in h p refl same (sym k ∙ s) ∙ ap some (sym g)

    new-Drawn :
        (d : Drawing) (x y : ℕ) (c : Cell) (prev_cell : Option Cell)
        → Lands
        → c.skip ≡ false
        → 0 < computed_width char_width c.ch
        → x < width
        → width + 255 ≤ 2 ^ 16
        → (shown device t d).pen ≡ d.pen
        → CursorKnown device t d
        → Drawn d
            (write char_width char_width_cjk width x c (modify c (colour c (place x y d))))
            x
            y
            c
            prev_cell
    new-Drawn d x y c prev_cell lands no_skip wide hx small pen cursor =
        let b = draw-Brushed device t d x y c pen cursor in
        let d1 = modify c (colour c (place x y d)) in
        let e = write-shown d1 d x y c b in
        record {
          pen = ap (λ (s : Terminal). s.pen) e ∙ sym b.pen ∙ write-pen d1 x c;
          cursor =
              write-cursor d1 d x y c lands wide hx small b (ap (λ (s : Terminal). s.col) e)
                (ap (λ (s : Terminal). s.row) e);
          here = λ s h.
              ap (λ (s : Terminal). s.screen x y) e
              ∙ put_self (shown device t d).screen x y (glyph c);
          others = λ x' y' g at apart.
              ap (λ (s : Terminal). s.screen x' y') e
              ∙ put_other (shown device t d).screen x y c x' y' g at (apart no_skip);
        }

    drawn_skip :
        (d : Drawing) (x y : ℕ) (c : Cell) (prev_cell : Option Cell)
        → c.skip ≡ true
        → draw_cell char_width char_width_cjk width x y c prev_cell d
          ≡ record d { cur_x = none; cur_y = none }
    unfolding draw_cell
    drawn_skip d x y c prev_cell s = rw s refl

    drawn_same :
        (d : Drawing) (x y : ℕ) (c : Cell) (prev_cell : Option Cell)
        → c.skip ≡ false
        → differs c prev_cell ≡ false
        → draw_cell char_width char_width_cjk width x y c prev_cell d ≡ d
    unfolding draw_cell
    drawn_same d x y c prev_cell s e = rw (e, s) refl

    drawn_new :
        (d : Drawing) (x y : ℕ) (c : Cell) (prev_cell : Option Cell)
        → c.skip ≡ false
        → differs c prev_cell ≡ true
        → draw_cell char_width char_width_cjk width x y c prev_cell d
          ≡ write char_width char_width_cjk width x c (modify c (colour c (place x y d)))
    unfolding draw_cell
    drawn_new d x y c prev_cell s e = rw (e, s) refl

    pub draw_cell-Drawn :
        (d : Drawing) (x y : ℕ) (c : Cell) (prev_cell : Option Cell)
        → Lands
        → (c.skip ≡ false → 0 < computed_width char_width c.ch)
        → x < width
        → width + 255 ≤ 2 ^ 16
        → (shown device t d).pen ≡ d.pen
        → CursorKnown device t d
        → Drawn d (draw_cell char_width char_width_cjk width x y c prev_cell d) x y c prev_cell
    draw_cell-Drawn d x y c prev_cell lands wide hx small pen cursor = elim (Bool-cases c.skip) [
      | inl skip ↦ rw (drawn_skip d x y c prev_cell skip) (record {
        pen = pen;
        cursor = λ x' y' ex ey. cc;
        here = λ s h. cc;
        others = λ x' y' g at apart. at;
      })
      | inr no_skip ↦ elim (Bool-cases (differs c prev_cell)) [
        | inr same ↦ rw (drawn_same d x y c prev_cell no_skip same) (record {
          pen = pen;
          cursor = cursor;
          here = λ s h. kept d x y c prev_cell same no_skip h;
          others = λ x' y' g at apart. at;
        })
        | inl new ↦
            rw (drawn_new d x y c prev_cell no_skip new)
              (new-Drawn d x y c prev_cell lands no_skip (wide no_skip) hx small pen cursor)
      ]
    ]
