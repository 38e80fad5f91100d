-- ===== src/Diagram/Grid/Crop.antt =====
-- The window of a grid that shows the most.
use oxiterm.Common.{
  ℕ, zero, suc, ◌+◌, ◌-◌, ◌/◌, Bool, true, false, not, ◌&&◌, ◌||◌, Option, none, some, List, [],
  ◌∷◌, ◌==◌, ltb, leb, get_elem?, replicate, if◌then◌else◌,
}
use oxiterm.Common.Texts.{Text}
use oxiterm.Diagram.{Graph, in_degree}
use oxiterm.Diagram.Layout.{NodePosition, GraphLayout}
use oxiterm.Diagram.Grid.{CellGrid, new, set, get, for_range, min_of, blank, find_place}

abbrev pub filled : ℕ → ℕ
filled ch = if ch == blank then 0 else 1

-- A row of the table of sums behind its first entry: each entry from the one above it, the one to
-- its left and the one between them.
unfoldable pub next_row : List ℕ → List ℕ → ℕ → ℕ → List ℕ
next_row [] above corner left = []
next_row (ch ∷ row) [] corner left = []
next_row (ch ∷ row) (up ∷ above) corner left =
    let sum = filled ch + up + left - corner in sum ∷ next_row row above up sum

unfoldable pub row_below : List ℕ → List ℕ → List ℕ
unfolding next_row
row_below row [] = 0 ∷ []
row_below row (corner ∷ above) = 0 ∷ next_row row above corner 0

-- A row of the table and those below it.
unfoldable pub rows_from : List ℕ → List (List ℕ) → List (List ℕ)
unfolding row_below
rows_from above [] = above ∷ []
rows_from above (row ∷ cells) = above ∷ rows_from (row_below row above) cells

unfoldable pub pref : CellGrid → List (List ℕ)
unfolding rows_from
pref g = rows_from (replicate (g.cols + 1) 0) g.cells

abbrev pub entry : List ℕ → ℕ → ℕ
entry row x = elim (get_elem? row x) [ none ↦ 0 | some n ↦ n ]

unfoldable pub sum_at : List (List ℕ) → ℕ → ℕ → ℕ
sum_at table y x = elim (get_elem? table y) [ none ↦ 0 | some row ↦ entry row x ]

unfoldable pub count_non_empty : List (List ℕ) → ℕ → ℕ → ℕ → ℕ → ℕ
unfolding sum_at
count_non_empty table w h x0 y0 =
    sum_at table (y0 + h) (x0 + w)
    + sum_at table y0 x0
    - sum_at table y0 (x0 + w)
    - sum_at table (y0 + h) x0

-- The best window so far, if there is one.
pub record Best : Type 0 where
  pub best_x0 : ℕ
  pub best_y0 : ℕ
  pub max_count : ℕ
  pub found_candidate : Bool

-- What the search does with a window that it accepts.
abbrev pub try_window : (ℕ → ℕ → ℕ) → ℕ → ℕ → Best → Best
try_window count x0 y0 b =
    let cnt = count x0 y0 in
    if not b.found_candidate || ltb b.max_count cnt
    then record { best_x0 = x0; best_y0 = y0; max_count = cnt; found_candidate = true }
    else b

-- The last of the fullest windows.
abbrev pub try_fallback : (ℕ → ℕ → ℕ) → ℕ → ℕ → Best → Best
try_fallback count x0 y0 b =
    let cnt = count x0 y0 in
    if leb b.max_count cnt then record b { best_x0 = x0; best_y0 = y0; max_count = cnt } else b

abbrev pub step_if : (ℕ → ℕ → Bool) → (ℕ → ℕ → Best → Best) → ℕ → ℕ → Best → Best
step_if accepts step x0 y0 b = if accepts x0 y0 then step x0 y0 b else b

-- The columns of a row of windows, and the rows.
unfoldable pub search_row : (ℕ → ℕ → Best → Best) → ℕ → ℕ → ℕ → Best → Best
search_row step y0 x0 zero b = b
search_row step y0 x0 (suc n) b = search_row step y0 (x0 + 1) n (step x0 y0 b)

unfoldable pub search_rows : (ℕ → ℕ → Best → Best) → ℕ → ℕ → ℕ → Best → Best
unfolding search_row
search_rows step columns y0 zero b = b
search_rows step columns y0 (suc n) b =
    search_rows step columns (y0 + 1) n (search_row step y0 0 columns b)

abbrev pub inside : ℕ → ℕ → ℕ → ℕ → ℕ → ℕ → Bool
inside w h x y x0 y0 = (leb x0 x && ltb x (x0 + w)) && (leb y0 y && ltb y (y0 + h))

abbrev pub centre_inside : ℕ → ℕ → NodePosition → ℕ → ℕ → Bool
centre_inside w h pos = inside w h (pos.col + pos.width / 2) (pos.row + pos.height / 2)

-- The nodes that no edge leads to.
unfoldable pub root_nodes : Graph → List NodePosition → List NodePosition
unfolding in_degree
root_nodes graph [] = []
root_nodes graph (n ∷ nodes) =
    let rest = root_nodes graph nodes in if in_degree graph n.id == 0 then n ∷ rest else rest

unfoldable pub any_inside : ℕ → ℕ → List NodePosition → ℕ → ℕ → Bool
any_inside w h [] x0 y0 = false
any_inside w h (r ∷ roots) x0 y0 = inside w h r.col r.row x0 y0 || any_inside w h roots x0 y0

abbrev pub root_inside : ℕ → ℕ → List NodePosition → ℕ → ℕ → Bool
unfolding any_inside
root_inside w h [] x0 y0 = true
root_inside w h (r ∷ roots) x0 y0 = any_inside w h (r ∷ roots) x0 y0

abbrev pub nothing_found : Best
nothing_found = record { best_x0 = 0; best_y0 = 0; max_count = 0; found_candidate = false }

module _ (count : ℕ → ℕ → ℕ) (w h columns rows : ℕ) where
  -- The windows with the centre of a node in them.
  unfoldable pub anchored : Option NodePosition → Best
  unfolding search_rows
  anchored none = nothing_found
  anchored (some pos) =
      search_rows (step_if (centre_inside w h pos) (try_window count)) columns 0 rows nothing_found

  -- The windows with a root in them, if nothing is found before.
  unfoldable pub rooted : List NodePosition → Best → Best
  unfolding search_rows root_inside
  rooted roots b =
      if b.found_candidate
      then b
      else search_rows (step_if (root_inside w h roots) (try_window count)) columns 0 rows b

  unfoldable pub select : Option NodePosition → List NodePosition → Best
  unfolding anchored rooted search_rows
  select anchor roots =
      let b = rooted roots (anchored anchor) in
      if b.found_candidate then b else search_rows (try_fallback count) columns 0 rows b

-- The cells of a window.
unfoldable pub copy_window : CellGrid → ℕ → ℕ → ℕ → ℕ → CellGrid
unfolding for_range set get
copy_window g w h x0 y0 =
    for_range 0 h (λ r out. for_range 0 w (λ c out. set out c r (get g (x0 + c) (y0 + r))) out)
      (new w h)

abbrev pub anchor_place : GraphLayout → Option Text → Option NodePosition
unfolding find_place
anchor_place layout none = none
anchor_place layout (some id) = find_place layout.nodes id

unfoldable pub crop : CellGrid → ℕ → ℕ → Option Text → Graph → GraphLayout → CellGrid
unfolding select pref count_non_empty copy_window root_nodes anchor_place
crop g target_cols target_rows anchor graph layout =
    let w = min_of target_cols g.cols in
    let h = min_of target_rows g.rows in
    let best =
      select (count_non_empty (pref g) w h) w h (g.cols - w + 1) (g.rows - h + 1)
        (anchor_place layout anchor) (root_nodes graph layout.nodes) in
    let window = copy_window g w h best.best_x0 best.best_y0 in
    if leb g.cols target_cols && leb g.rows target_rows then g else window
