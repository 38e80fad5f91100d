-- ===== src/Diagram/Grid/Size.antt =====
-- A grid keeps its size, and a window is as large as asked for at most.
use oxiterm.Common.{
  ℕ, zero, suc, ◌+◌, ◌-◌, ◌/◌, ◌≤◌, ◌≡◌, refl, sym, ◌∙◌, subst, Bool, true, false, ◌&&◌, Option,
  none, some, List, [], ◌∷◌, arith, length, replicate, length-replicate, length-set,
  set as write_elem, if◌then◌else◌, Option-cases, Bool-cases, inl, inr, ltb, leb,
}
use oxiterm.Common.Texts.{Text}
use oxiterm.Diagram.{DiagramEdge, Graph, get_node}
use oxiterm.Diagram.Layout.{NodePosition, GraphLayout, max}
use oxiterm.Diagram.Grid.{
  CellGrid, new, set, get, in_row, for_range, border, draw_box, level_line, draw_edge, draw_boxes,
  draw_edges, render_grid, find_place, min_of, blank,
}
use oxiterm.Diagram.Grid.Crop.{crop, copy_window}
use oxiterm.Diagram.Grid.Counts.{HasWidth}

-- A grid of some columns and rows, with as many cells.
pub record IsGrid (c r : ℕ) (g : CellGrid) : Type 0 where
  pub cols : g.cols ≡ c
  pub rows : g.rows ≡ r
  pub height : length g.cells ≡ r
  pub width : HasWidth c g.cells

write-HasWidth :
    (cells : List (List ℕ)) (n i col ch : ℕ)
    → HasWidth n cells
    → HasWidth n (write_elem cells i (write_elem (in_row cells i) col ch))
write-HasWidth [] n i col ch h = h
write-HasWidth (row ∷ cells) n zero col ch h = (length-set row col ch ∙ h.0, h.1)
write-HasWidth (row ∷ cells) n (suc i) col ch h = (h.0, write-HasWidth cells n i col ch h.1)

replicate-HasWidth : (n : ℕ) (row : List ℕ) → HasWidth (length row) (replicate n row)
replicate-HasWidth zero row = tt
replicate-HasWidth (suc n) row = (refl, replicate-HasWidth n row)

new-IsGrid : (c r : ℕ) → IsGrid (max c 1) (max r 1) (new c r)
new-IsGrid c r = record {
  cols = refl;
  rows = refl;
  height = length-replicate (max r 1) (replicate (max c 1) blank);
  width =
      subst (λ n. HasWidth n (replicate (max r 1) (replicate (max c 1) blank)))
        (length-replicate (max c 1) blank)
        (replicate-HasWidth (max r 1) (replicate (max c 1) blank));
}

module _ (c r : ℕ) where
  if_IsGrid :
      (b : Bool) (g k : CellGrid) → IsGrid c r g → IsGrid c r k → IsGrid c r (if b then g else k)
  if_IsGrid true g k p q = p
  if_IsGrid false g k p q = q

  set-IsGrid : (g : CellGrid) (col row ch : ℕ) → IsGrid c r g → IsGrid c r (set g col row ch)
  unfolding set
  set-IsGrid g col row ch p =
      if_IsGrid (ltb row g.rows && ltb col g.cols)
        (record g { cells = write_elem g.cells row (write_elem (in_row g.cells row) col ch) }) g
        (record {
          cols = p.cols;
          rows = p.rows;
          height = length-set g.cells row _ ∙ p.height;
          width = write-HasWidth g.cells c row col ch p.width;
        })
        p

  for_range-IsGrid :
      (n from : ℕ) (step : ℕ → CellGrid → CellGrid) (g : CellGrid)
      → ((i : ℕ) (k : CellGrid) → IsGrid c r k → IsGrid c r (step i k))
      → IsGrid c r g
      → IsGrid c r (for_range from n step g)
  unfolding for_range
  for_range-IsGrid zero from step g s p = p
  for_range-IsGrid (suc n) from step g s p =
      for_range-IsGrid n (from + 1) step (step from g) s (s from g p)

  border-IsGrid :
      (x y w left line right : ℕ) (g : CellGrid)
      → IsGrid c r g
      → IsGrid c r (border x y w left line right g)
  unfolding border
  border-IsGrid x y w left line right g p = set-IsGrid _ (x + w - 1) y right (
      for_range-IsGrid (w - 2) 1 (λ i k. set k (x + i) y line) _
        (λ i k q. set-IsGrid k (x + i) y line q) (set-IsGrid g x y left p))

  draw_box-IsGrid :
      (g : CellGrid) (pos : NodePosition) (label : Text)
      → IsGrid c r g
      → IsGrid c r (draw_box g pos label)
  unfolding draw_box
  draw_box-IsGrid g pos label p = if_IsGrid _ g _ p (
      border-IsGrid pos.col (pos.row + 2) pos.width 0x2514 0x2500 0x2518 _ (
        set-IsGrid _ (pos.col + pos.width - 1) (pos.row + 1) 0x2502 (
          for_range-IsGrid (pos.width - 2) 0 _ _
            (λ i k q. set-IsGrid k (pos.col + 1 + i) (pos.row + 1) _ q)
            (set-IsGrid _ pos.col (pos.row + 1) 0x2502
              (border-IsGrid pos.col pos.row pos.width 0x250c 0x2500 0x2510 g p)))))

  level_line-IsGrid :
      (start_x end_x y : ℕ) (g : CellGrid)
      → IsGrid c r g
      → IsGrid c r (level_line start_x end_x y g)
  unfolding level_line
  level_line-IsGrid start_x end_x y g p =
      for_range-IsGrid (max start_x end_x + 1 - min_of start_x end_x) (min_of start_x end_x)
        (λ x k. set k x y 0x2500) g (λ x k q. set-IsGrid k x y 0x2500 q) p

  draw_edge-IsGrid :
      (g : CellGrid) (from to : NodePosition) → IsGrid c r g → IsGrid c r (draw_edge g from to)
  unfolding draw_edge
  draw_edge-IsGrid g from to p =
      let start_x = from.col + from.width / 2 in
      let start_y = from.row + from.height in
      let end_x = to.col + to.width / 2 in
      let mid_y = (start_y + to.row) / 2 in
      let down =
        for_range-IsGrid (mid_y - start_y) start_y (λ y k. set k start_x y 0x2502) g
          (λ y k q. set-IsGrid k start_x y 0x2502 q) p in
      let on =
        for_range-IsGrid (to.row - (mid_y + 1)) (mid_y + 1) (λ y k. set k end_x y 0x2502) _
          (λ y k q. set-IsGrid k end_x y 0x2502 q) (level_line-IsGrid start_x end_x mid_y _ down) in
      let beside = level_line-IsGrid start_x end_x start_y g p in
      if_IsGrid (ltb start_y to.row) _ _
        (if_IsGrid (ltb 0 to.row) _ _ (set-IsGrid _ end_x (to.row - 1) b'v' on) on)
        (if_IsGrid (ltb end_x g.cols && ltb to.row g.rows) _ _
          (set-IsGrid _ end_x to.row b'v' beside) beside)

  -- What is drawn, if anything is.
  OnGrid : Option CellGrid → Type 0
  OnGrid none = Unit
  OnGrid (some g) = IsGrid c r g

  draw_boxes-OnGrid :
      (graph : Graph) (nodes : List NodePosition) (g : CellGrid)
      → IsGrid c r g
      → OnGrid (draw_boxes graph nodes g)
  unfolding draw_boxes OnGrid
  draw_boxes-OnGrid graph [] g p = p
  draw_boxes-OnGrid graph (pos ∷ nodes) g p = elim (Option-cases (get_node graph pos.id)) [
    | inl e ↦ rw (draw_boxes, e) tt
    | inr (n, e) ↦
        rw (draw_boxes, e)
          (draw_boxes-OnGrid graph nodes (draw_box g pos n.label) (draw_box-IsGrid g pos n.label p))
  ]

  edge-IsGrid :
      (g : CellGrid) (from to : Option NodePosition)
      → IsGrid c r g
      → IsGrid c r (elim from [
        | none ↦ g
        | some from_pos ↦ elim to [ none ↦ g | some to_pos ↦ draw_edge g from_pos to_pos ]
      ])
  edge-IsGrid g none to p = p
  edge-IsGrid g (some from_pos) none p = p
  edge-IsGrid g (some from_pos) (some to_pos) p = draw_edge-IsGrid g from_pos to_pos p

  draw_edges-IsGrid :
      (layout : GraphLayout) (edges : List DiagramEdge) (g : CellGrid)
      → IsGrid c r g
      → IsGrid c r (draw_edges layout edges g)
  unfolding draw_edges
  draw_edges-IsGrid layout [] g p = p
  draw_edges-IsGrid layout (e ∷ edges) g p =
      draw_edges-IsGrid layout edges _
        (edge-IsGrid g (find_place layout.nodes e.from) (find_place layout.nodes e.to) p)

  edges-OnGrid :
      (layout : GraphLayout) (edges : List DiagramEdge) (o : Option CellGrid)
      → OnGrid o
      → OnGrid (elim o [ none ↦ none | some g ↦ some (draw_edges layout edges g) ])
  unfolding OnGrid
  edges-OnGrid layout edges none p = tt
  edges-OnGrid layout edges (some g) p = draw_edges-IsGrid layout edges g p

-- What is rendered of a graph with a layout is a grid of the layout's extent, of one cell at
-- least, with as many cells.
render_grid-IsGrid :
    (graph : Graph) (layout : GraphLayout) (g : CellGrid)
    → render_grid graph layout ≡ some g
    → IsGrid (max layout.total_cols 1) (max layout.total_rows 1) g
unfolding render_grid OnGrid
render_grid-IsGrid graph layout g e =
    let c = max layout.total_cols 1 in
    let r = max layout.total_rows 1 in
    subst (OnGrid c r) e (
      edges-OnGrid c r layout graph.edges _ (
        draw_boxes-OnGrid c r graph layout.nodes (new layout.total_cols layout.total_rows)
          (new-IsGrid layout.total_cols layout.total_rows)))

copy_window-IsGrid :
    (g : CellGrid) (w h x0 y0 : ℕ) → IsGrid (max w 1) (max h 1) (copy_window g w h x0 y0)
unfolding copy_window
copy_window-IsGrid g w h x0 y0 =
    for_range-IsGrid (max w 1) (max h 1) h 0 _ (new w h)
      (λ r k q.
        for_range-IsGrid (max w 1) (max h 1) w 0 (λ c out. set out c r (get g (x0 + c) (y0 + r))) k
          (λ c m s. set-IsGrid (max w 1) (max h 1) m c r (get g (x0 + c) (y0 + r)) s) q)
      (new-IsGrid w h)

-- No larger than what is asked for, and with as many cells as its size says.
pub Within : ℕ → ℕ → CellGrid → Type 0
Within c r g = (g.cols ≤ c) × (g.rows ≤ r) × IsGrid g.cols g.rows g

IsGrid-Within : (c r : ℕ) (g : CellGrid) (a b : ℕ) → a ≤ c → b ≤ r → IsGrid a b g → Within c r g
unfolding Within
IsGrid-Within c r g a b i j p = (
  omega (arith, i, p.cols),
  omega (arith, j, p.rows),
  subst (λ x. IsGrid x g.rows g) (sym p.cols) (subst (λ y. IsGrid a y g) (sym p.rows) p),
)

small : (n target : ℕ) → 1 ≤ target → max (min_of target n) 1 ≤ target
small n target i = ground arith

-- Cropping a grid gives one that is no larger than what is asked for, if that is one cell at least.
crop-Within :
    (g : CellGrid) (target_cols target_rows : ℕ) (anchor : Option Text) (graph : Graph)
    (layout : GraphLayout)
    → IsGrid g.cols g.rows g
    → 1 ≤ target_cols
    → 1 ≤ target_rows
    → Within target_cols target_rows (crop g target_cols target_rows anchor graph layout)
unfolding crop
crop-Within g target_cols target_rows anchor graph layout p i j =
    elim (Bool-cases (leb g.cols target_cols && leb g.rows target_rows)) [
      | inl e ↦ rw e (
          IsGrid-Within target_cols target_rows g g.cols g.rows (ground (arith, e))
            (ground (arith, e)) p)
      | inr e ↦ rw e (
          IsGrid-Within target_cols target_rows _ _ _ (small g.cols target_cols i)
            (small g.rows target_rows j)
            (copy_window-IsGrid g (min_of target_cols g.cols) (min_of target_rows g.rows) _ _))
    ]
