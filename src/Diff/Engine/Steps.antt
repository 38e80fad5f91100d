-- ===== src/Diff/Engine/Steps.antt =====
-- What each step of the drawing of a cell does to the terminal that runs the commands.
use oxiterm.Common.{
  ℕ, ◌≡◌, refl, sym, ◌∙◌, ap, ap₂, Bool, true, false, ◌&&◌, Option, none, some, arith, ◌==◌, ==_iff,
  Bool-cases, inl, inr,
}
use oxiterm.Style.{AnsiColor, true_color, color256}
use oxiterm.Buffer.{Cell}
use oxiterm.Diff.{move_cursor, set_color, set_modifiers}
use oxiterm.Diff.Engine.{
  same_bool, same_color, same_cell, Pen, Drawing, is_at, place, colour, modify,
}
use oxiterm.Diff.Engine.Terminal.{Device, pen_of, glyph, Terminal, apply, run, run-snoc}

pub same_bool-eq : (a b : Bool) → same_bool a b ≡ true → a ≡ b
same_bool-eq true b h = sym h
same_bool-eq false true h = cc
same_bool-eq false false h = refl

pub same_color-eq : (a b : AnsiColor) → same_color a b ≡ true → a ≡ b
unfolding same_color
same_color-eq (true_color r g b) (true_color r' g' b') h = ground arith
same_color-eq (true_color r g b) (color256 n) h = cc
same_color-eq (true_color r g b) AnsiColor.reset h = cc
same_color-eq (color256 n) (true_color r g b) h = cc
same_color-eq (color256 n) (color256 n') h = ground arith
same_color-eq (color256 n) AnsiColor.reset h = cc
same_color-eq AnsiColor.reset (true_color r g b) h = cc
same_color-eq AnsiColor.reset (color256 n) h = cc
same_color-eq AnsiColor.reset AnsiColor.reset h = refl

-- Both tests of a conjunction.
pub both : (a b : Bool) → (a && b) ≡ true → (a ≡ true) × (b ≡ true)
both true b h = (refl, h)
both false b h = cc

pub same_cell-eq : (a b : Cell) → same_cell a b ≡ true → (glyph a ≡ glyph b) × (a.skip ≡ b.skip)
unfolding same_cell
same_cell-eq a b h =
    let (ch, h1) = both (a.ch == b.ch) _ h in
    let (fg, h2) = both (same_color a.fg b.fg) _ h1 in
    let (bg, h3) = both (same_color a.bg b.bg) _ h2 in
    let (bold, h4) = both (same_bool a.bold b.bold) _ h3 in
    let (underline, h5) = both (same_bool a.underline b.underline) _ h4 in
    let (italic, skip) = both (same_bool a.italic b.italic) _ h5 in
    let e1 = (==_iff a.ch b.ch).0 ch in
    let e2 = same_color-eq a.fg b.fg fg in
    let e3 = same_color-eq a.bg b.bg bg in
    let e4 = same_bool-eq a.bold b.bold bold in
    let e5 = same_bool-eq a.underline b.underline underline in
    let e6 = same_bool-eq a.italic b.italic italic in (cc, same_bool-eq a.skip b.skip skip)

module _ (device : Device) (t : Terminal) where
  -- The terminal behind the commands of a drawing.
  abbrev pub shown : Drawing → Terminal
  shown d = run device t d.commands

  -- The terminal's cursor is where the drawing takes it to be, if it takes it to be anywhere.
  abbrev pub CursorKnown : Drawing → Type 0
  CursorKnown d =
      (x y : ℕ) → d.cur_x ≡ some x → d.cur_y ≡ some y → ((shown d).col ≡ x) × ((shown d).row ≡ y)

  is_at-eq : (o : Option ℕ) (x : ℕ) → is_at o x ≡ true → o ≡ some x
  is_at-eq none x h = cc
  is_at-eq (some x') x h = ground arith

  pub place-shown :
      (d : Drawing) (x y : ℕ)
      → CursorKnown d
      → shown (place x y d) ≡ record (shown d) { col = x; row = y }
  unfolding place run apply
  place-shown d x y k = elim (Bool-cases (is_at d.cur_x x && is_at d.cur_y y)) [
    | inl e ↦
        let (ex, ey) = both (is_at d.cur_x x) (is_at d.cur_y y) e in
        let (hc, hr) = k x y (is_at-eq d.cur_x x ex) (is_at-eq d.cur_y y ey) in
        rw e (ap₂ (λ col row. record (shown d) { col = col; row = row }) hc hr)
    | inr e ↦ rw e (run-snoc device t d.commands (move_cursor x y))
  ]

  pub place-pen : (d : Drawing) (x y : ℕ) → (place x y d).pen ≡ d.pen
  unfolding place
  place-pen d x y = elim (Bool-cases (is_at d.cur_x x && is_at d.cur_y y)) [
    | inl e ↦ rw e refl
    | inr e ↦ rw e refl
  ]

  pub place-cur_y : (d : Drawing) (x y : ℕ) → (place x y d).cur_y ≡ some y
  unfolding place
  place-cur_y d x y = elim (Bool-cases (is_at d.cur_x x && is_at d.cur_y y)) [
    | inl e ↦ rw e (is_at-eq d.cur_y y (both (is_at d.cur_x x) (is_at d.cur_y y) e).1)
    | inr e ↦ rw e refl
  ]

  -- The pen takes the colours, and the terminal's pen with it.
  pub colour-shown :
      (d : Drawing) (c : Cell)
      → (shown d).pen ≡ d.pen
      → ((colour c d).pen ≡ record d.pen { fg = c.fg; bg = c.bg })
        × (shown (colour c d) ≡ record (shown d) { pen = (colour c d).pen })
        × ((colour c d).cur_y ≡ d.cur_y)
  unfolding colour run apply
  colour-shown d c k = elim (Bool-cases (same_color c.fg d.pen.fg && same_color c.bg d.pen.bg)) [
    | inl e ↦
        let (f, b) = both (same_color c.fg d.pen.fg) (same_color c.bg d.pen.bg) e in
        rw e (
          ap₂ (λ fg bg. record d.pen { fg = fg; bg = bg }) (sym (same_color-eq c.fg d.pen.fg f))
              (sym (same_color-eq c.bg d.pen.bg b)),
          ap (λ pen. record (shown d) { pen = pen }) k,
          refl,
        )
    | inr e ↦ rw e (
      refl,
      run-snoc device t d.commands (set_color c.fg c.bg)
          ∙ ap (λ (pen : Pen). record (shown d) { pen = record pen { fg = c.fg; bg = c.bg } }) k,
      refl,
    )
  ]

  pub modify-shown :
      (d : Drawing) (c : Cell)
      → (shown d).pen ≡ d.pen
      → ((modify c d).pen
          ≡ record d.pen { bold = c.bold; underline = c.underline; italic = c.italic })
        × (shown (modify c d) ≡ record (shown d) { pen = (modify c d).pen })
        × ((modify c d).cur_y ≡ d.cur_y)
  unfolding modify run apply
  modify-shown d c k =
      elim (Bool-cases (
        same_bool c.bold d.pen.bold
        && (same_bool c.underline d.pen.underline && same_bool c.italic d.pen.italic))) [
          | inl e ↦
              let (b, ui) = both (same_bool c.bold d.pen.bold) _ e in
              let (u, i) = both (same_bool c.underline d.pen.underline) _ ui in
              let eb = same_bool-eq c.bold d.pen.bold b in
              let eu = same_bool-eq c.underline d.pen.underline u in
              let ei = same_bool-eq c.italic d.pen.italic i in
              rw e ((rw (eb, eu, ei) refl), ap (λ pen. record (shown d) { pen = pen }) k, refl)
          | inr e ↦ rw e (
            refl,
            run-snoc device t d.commands (set_modifiers c.bold c.underline c.italic)
                ∙ ap
                    (λ (pen : Pen). record (shown d) {
                      pen = record pen {
                        bold = c.bold;
                        underline = c.underline;
                        italic = c.italic;
                      };
                    })
                    k,
            refl,
          )
        ]

  -- The terminal stands at the cell, with the cell's colours and modifiers.
  pub record Brushed (d d' : Drawing) (x y : ℕ) (c : Cell) : Type 0 where
    pub terminal : shown d' ≡ record (shown d) { col = x; row = y; pen = pen_of c }
    pub pen : d'.pen ≡ pen_of c
    pub cur_y : d'.cur_y ≡ some y

  pub draw-Brushed :
      (d : Drawing) (x y : ℕ) (c : Cell)
      → (shown d).pen ≡ d.pen
      → CursorKnown d
      → Brushed d (modify c (colour c (place x y d))) x y c
  draw-Brushed d x y c k cursor =
      let e0 = place-shown d x y cursor in
      let p0 = place-pen d x y in
      let (p1, e1, y1) =
        colour-shown (place x y d) c (ap (λ (t : Terminal). t.pen) e0 ∙ k ∙ sym p0) in
      let d1 = colour c (place x y d) in
      let (p2, e2, y2) = modify-shown d1 c (ap (λ (t : Terminal). t.pen) e1) in
      let pen : (modify c d1).pen ≡ pen_of c =
        p2
        ∙ ap
            (λ (pen : Pen). record pen {
              bold = c.bold;
              underline = c.underline;
              italic = c.italic;
            })
            p1 in
      record {
        terminal =
            e2
            ∙ ap₂ (λ (t : Terminal) pen. record t { pen = pen })
                (e1 ∙ ap₂ (λ (t : Terminal) pen. record t { pen = pen }) e0 refl) pen;
        pen = pen;
        cur_y = y2 ∙ y1 ∙ place-cur_y d x y;
      }
