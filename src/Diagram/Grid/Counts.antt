-- ===== src/Diagram/Grid/Counts.antt =====
-- The table of sums counts the cells of a window that are not blank.
use oxiterm.Common.{
  ℕ, zero, suc, ◌+◌, ◌-◌, ◌≤◌, ◌<◌, ◌≡◌, refl, sym, ap, ◌∙◌, List, [], ◌∷◌, arith, All, length,
  take, drop, replicate, length-replicate,
}
use oxiterm.Diagram.Grid.{CellGrid}
use oxiterm.Diagram.Grid.Crop.{
  filled, next_row, row_below, rows_from, pref, entry, sum_at, count_non_empty,
}

-- How many cells of a row are not blank, and how many of the first of some rows.
unfoldable pub filled_cells : List ℕ → ℕ
filled_cells [] = 0
filled_cells (ch ∷ row) = filled ch + filled_cells row

-- How many cells of a window are not blank: of the rows from y0 on the first h, and of each of
-- them the columns from x0 on the first w.
unfoldable pub in_columns : ℕ → ℕ → List (List ℕ) → ℕ
unfolding filled_cells
in_columns x0 w [] = 0
in_columns x0 w (row ∷ rows) = filled_cells (take w (drop x0 row)) + in_columns x0 w rows

-- Rows of one length.
abbrev pub HasWidth : ℕ → List (List ℕ) → Type 0
HasWidth n cells = All (λ row. length row ≡ n) cells

next_row-entry :
    (row above : List ℕ) (corner k x : ℕ)
    → length above ≡ length row
    → x < length row
    → entry (next_row row above corner (corner + k)) x
      ≡ entry above x + (k + filled_cells (take (suc x) row))
unfolding next_row filled_cells
next_row-entry [] above corner k x e h = absurd (omega (arith, h))
next_row-entry (ch ∷ row) [] corner k x e h = absurd (omega (arith, e))
next_row-entry (ch ∷ row) (up ∷ above) corner k zero e h = omega arith
next_row-entry (ch ∷ row) (up ∷ above) corner k (suc x) e h =
    let sum : filled ch + up + (corner + k) - corner ≡ up + (k + filled ch) = omega arith in
    ap (λ s. entry (next_row row above up s) x) sum
    ∙ next_row-entry row above up (k + filled ch) x (omega (arith, e)) (omega (arith, h))
    ∙ omega arith

length-next_row :
    (row above : List ℕ) (corner left : ℕ)
    → length above ≡ length row
    → length (next_row row above corner left) ≡ length row
unfolding next_row
length-next_row [] above corner left e = refl
length-next_row (ch ∷ row) [] corner left e = absurd (omega (arith, e))
length-next_row (ch ∷ row) (up ∷ above) corner left e =
    ap suc (length-next_row row above up _ (omega (arith, e)))

row_below-entry :
    (row above : List ℕ) (x : ℕ)
    → length above ≡ suc (length row)
    → entry above 0 ≡ 0
    → x ≤ length row
    → entry (row_below row above) x ≡ entry above x + filled_cells (take x row)
unfolding filled_cells row_below
row_below-entry row [] x e z h = absurd (omega (arith, e))
row_below-entry row (corner ∷ above) zero e z h = omega (arith, z)
row_below-entry row (corner ∷ above) (suc x) e z h =
    let c : entry (next_row row above corner 0) x
        ≡ entry (next_row row above corner (corner + 0)) x =
      ap (λ l. entry (next_row row above corner l) x) (omega (arith, z)) in
    c ∙ next_row-entry row above corner 0 x (omega (arith, e)) (omega (arith, h)) ∙ omega arith

length-row_below :
    (row above : List ℕ)
    → length above ≡ suc (length row)
    → length (row_below row above) ≡ suc (length row)
unfolding row_below
length-row_below row [] e = absurd (omega (arith, e))
length-row_below row (corner ∷ above) e =
    ap suc (length-next_row row above corner 0 (omega (arith, e)))

row_below-first : (row above : List ℕ) → entry (row_below row above) 0 ≡ 0
unfolding row_below
row_below-first row [] = refl
row_below-first row (corner ∷ above) = refl

rows_from-sum :
    (cells : List (List ℕ)) (above : List ℕ) (n y x : ℕ)
    → length above ≡ suc n
    → entry above 0 ≡ 0
    → HasWidth n cells
    → x ≤ n
    → y ≤ length cells
    → sum_at (rows_from above cells) y x ≡ entry above x + in_columns 0 x (take y cells)
unfolding rows_from sum_at in_columns
rows_from-sum [] above n zero x e z c h k = omega arith
rows_from-sum [] above n (suc y) x e z c h k = absurd (omega (arith, k))
rows_from-sum (row ∷ cells) above n zero x e z c h k = omega arith
rows_from-sum (row ∷ cells) above n (suc y) x e z c h k =
    rows_from-sum cells (row_below row above) n y x
      (length-row_below row above (e ∙ ap suc (sym c.0)) ∙ ap suc c.0) (row_below-first row above)
      c.1 h (omega (arith, k))
    ∙ ap (λ s. s + in_columns 0 x (take y cells))
        (row_below-entry row above x (e ∙ ap suc (sym c.0)) z (omega (arith, h, c.0)))
    ∙ omega arith

entry-replicate : (n x : ℕ) → entry (replicate n 0) x ≡ 0
entry-replicate zero x = refl
entry-replicate (suc n) zero = refl
entry-replicate (suc n) (suc x) = entry-replicate n x

zero_sum : {n w : ℕ} → n ≡ 0 + w → n ≡ w
zero_sum e = omega (arith, e)

filled-split :
    (row : List ℕ) (a w n : ℕ)
    → n ≡ a + w
    → filled_cells (take n row) ≡ filled_cells (take a row) + filled_cells (take w (drop a row))
unfolding filled_cells
filled-split row zero w n e = ap (λ m. filled_cells (take m row)) (zero_sum e) ∙ omega arith
filled-split row (suc a) w zero e = absurd (omega (arith, e))
filled-split [] (suc a) zero (suc n) e = refl
filled-split [] (suc a) (suc w) (suc n) e = refl
filled-split (ch ∷ row) (suc a) w (suc n) e =
    omega (arith, filled-split row a w n (omega (arith, e)))

columns-split :
    (rows : List (List ℕ)) (a w : ℕ)
    → in_columns 0 (a + w) rows ≡ in_columns 0 a rows + in_columns a w rows
unfolding in_columns
columns-split [] a w = refl
columns-split (row ∷ rows) a w =
    omega (arith, columns-split rows a w, filled-split row a w (a + w) refl)

rows-split :
    (rows : List (List ℕ)) (x w y h n : ℕ)
    → n ≡ y + h
    → in_columns x w (take n rows)
      ≡ in_columns x w (take y rows) + in_columns x w (take h (drop y rows))
unfolding in_columns
rows-split rows x w zero h n e = ap (λ m. in_columns x w (take m rows)) (zero_sum e) ∙ omega arith
rows-split rows x w (suc y) h zero e = absurd (omega (arith, e))
rows-split [] x w (suc y) zero (suc n) e = refl
rows-split [] x w (suc y) (suc h) (suc n) e = refl
rows-split (row ∷ rows) x w (suc y) h (suc n) e =
    omega (arith, rows-split rows x w y h n (omega (arith, e)))

-- For a window inside a grid whose rows are as long as its width, the four entries of the table of
-- sums give the number of the cells in the window that are not blank.
pub count_non_empty-pref :
    (g : CellGrid) (w h x0 y0 : ℕ)
    → HasWidth g.cols g.cells
    → x0 + w ≤ g.cols
    → y0 + h ≤ length g.cells
    → count_non_empty (pref g) w h x0 y0 ≡ in_columns x0 w (take h (drop y0 g.cells))
unfolding pref count_non_empty
count_non_empty-pref g w h x0 y0 c in_x in_y =
    let zeros : List ℕ = replicate (g.cols + 1) 0 in
    let size : length zeros ≡ suc g.cols = length-replicate (g.cols + 1) 0 ∙ omega arith in
    let sum : (y x : ℕ)
        → x ≤ g.cols
        → y ≤ length g.cells
        → sum_at (rows_from zeros g.cells) y x ≡ entry zeros x + in_columns 0 x (take y g.cells) =
      λ y x i k.
        rows_from-sum g.cells zeros g.cols y x size (entry-replicate (g.cols + 1) 0) c i k in
    omega (
      arith,
      sum (y0 + h) (x0 + w) in_x in_y,
      sum y0 x0 (omega (arith, in_x)) (omega (arith, in_y)),
      sum y0 (x0 + w) in_x (omega (arith, in_y)),
      sum (y0 + h) x0 (omega (arith, in_x)) in_y,
      entry-replicate (g.cols + 1) (x0 + w),
      entry-replicate (g.cols + 1) x0,
      rows-split g.cells 0 (x0 + w) y0 h (y0 + h) refl,
      rows-split g.cells 0 x0 y0 h (y0 + h) refl,
      columns-split (take h (drop y0 g.cells)) x0 w,
    )
