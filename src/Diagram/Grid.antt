-- ===== src/Diagram/Grid.antt =====
-- oxiterm-renderer/src/diagram/grid.rs: the grid of characters, and how a diagram is drawn into it.
-- An index beyond a vector, which a grid of its size does not meet, writes or reads nothing.
pub mod Crop
pub mod Counts
pub mod Best
pub mod Size
mod Tests
use oxiterm.Common.{
  ℕ, zero, suc, ◌+◌, ◌-◌, ◌/◌, Bool, true, false, ◌&&◌, ◌||◌, Option, none, some, List, [], ◌∷◌,
  ltb, leb, length, get_elem?, replicate, set as write_elem, if◌then◌else◌,
}
use oxiterm.Common.Texts.{Text, text_eq, text_len}
use oxiterm.Diagram.{DiagramEdge, Graph, get_node, find_id}
use oxiterm.Diagram.Layout.{NodePosition, GraphLayout, max}

pub record CellGrid : Type 0 where
  pub cols : ℕ
  pub rows : ℕ
  pub cells : List (List ℕ)

abbrev pub blank : ℕ
blank = b' '

abbrev pub new : ℕ → ℕ → CellGrid
new cols rows = record {
  cols = max cols 1;
  rows = max rows 1;
  cells = replicate (max rows 1) (replicate (max cols 1) blank);
}

abbrev pub in_row : List (List ℕ) → ℕ → List ℕ
in_row cells row = elim (get_elem? cells row) [ none ↦ [] | some r ↦ r ]

unfoldable pub set : CellGrid → ℕ → ℕ → ℕ → CellGrid
set g col row ch =
    if ltb row g.rows && ltb col g.cols
    then record g { cells = write_elem g.cells row (write_elem (in_row g.cells row) col ch) }
    else g

abbrev pub at : List (List ℕ) → ℕ → ℕ → ℕ
at cells col row = elim (get_elem? (in_row cells row) col) [ none ↦ blank | some ch ↦ ch ]

unfoldable pub get : CellGrid → ℕ → ℕ → ℕ
get g col row = if ltb row g.rows && ltb col g.cols then at g.cells col row else blank

-- A loop over a range, by its start and its length.
unfoldable pub for_range : ℕ → ℕ → (ℕ → CellGrid → CellGrid) → CellGrid → CellGrid
for_range from zero step g = g
for_range from (suc n) step g = for_range (from + 1) n step (step from g)

-- A border: its ends and the line between them.
unfoldable pub border : ℕ → ℕ → ℕ → ℕ → ℕ → ℕ → CellGrid → CellGrid
unfolding set for_range
border x y w left line right g =
    let g = set g x y left in
    let g = for_range 1 (w - 2) (λ c g. set g (x + c) y line) g in set g (x + w - 1) y right

abbrev pub label_char : Text → ℕ → ℕ → ℕ
label_char label pad i =
    if leb pad i && ltb (i - pad) (text_len label)
    then (elim (get_elem? label (i - pad)) [ none ↦ blank | some ch ↦ ch ])
    else blank

-- A box is eight cells wide at least.
unfoldable pub draw_box : CellGrid → NodePosition → Text → CellGrid
unfolding set border for_range text_len
draw_box g pos label =
    let x = pos.col in
    let y = pos.row in
    let w = pos.width in
    let inner_width = w - 2 in
    let pad = (inner_width - text_len label) / 2 in
    let top = border x y w 0x250c 0x2500 0x2510 g in
    let left = set top x (y + 1) 0x2502 in
    let inner =
      for_range 0 inner_width (λ i g. set g (x + 1 + i) (y + 1) (label_char label pad i)) left in
    let middle = set inner (x + w - 1) (y + 1) 0x2502 in
    let whole = border x (y + 2) w 0x2514 0x2500 0x2518 middle in
    if ltb g.cols (x + w) || ltb g.rows (y + pos.height) then g else whole

abbrev pub min_of : ℕ → ℕ → ℕ
min_of a b = if ltb a b then a else b

-- A horizontal line between two columns, both included.
unfoldable pub level_line : ℕ → ℕ → ℕ → CellGrid → CellGrid
unfolding set for_range
level_line start_x end_x y g =
    let min_x = min_of start_x end_x in
    for_range min_x (max start_x end_x + 1 - min_x) (λ x g. set g x y 0x2500) g

unfoldable pub draw_edge : CellGrid → NodePosition → NodePosition → CellGrid
unfolding set for_range level_line
draw_edge g from to =
    let start_x = from.col + from.width / 2 in
    let start_y = from.row + from.height in
    let end_x = to.col + to.width / 2 in
    let end_y = to.row in
    let mid_y = (start_y + end_y) / 2 in
    let down = for_range start_y (mid_y - start_y) (λ y g. set g start_x y 0x2502) g in
    let across = level_line start_x end_x mid_y down in
    let on = for_range (mid_y + 1) (end_y - (mid_y + 1)) (λ y g. set g end_x y 0x2502) across in
    let beside = level_line start_x end_x start_y g in
    if ltb start_y end_y
    then (if ltb 0 end_y then set on end_x (end_y - 1) b'v' else on)
    else if ltb end_x g.cols && ltb end_y g.rows
    then set beside end_x end_y b'v'
    else beside

-- `GraphLayout::get_node`
unfoldable pub find_place : List NodePosition → Text → Option NodePosition
unfolding text_eq
find_place [] id = none
find_place (n ∷ nodes) id = if text_eq n.id id then some n else find_place nodes id

-- The loop over the nodes, none if one is not in the graph.
unfoldable pub draw_boxes : Graph → List NodePosition → CellGrid → Option CellGrid
unfolding get_node draw_box
draw_boxes graph [] g = some g
draw_boxes graph (pos ∷ nodes) g = elim (get_node graph pos.id) [
  | none ↦ none
  | some n ↦ draw_boxes graph nodes (draw_box g pos n.label)
]

unfoldable pub draw_edges : GraphLayout → List DiagramEdge → CellGrid → CellGrid
unfolding find_place draw_edge
draw_edges layout [] g = g
draw_edges layout (e ∷ edges) g = draw_edges layout edges (elim (find_place layout.nodes e.from) [
  | none ↦ g
  | some from_pos ↦ elim (find_place layout.nodes e.to) [
    | none ↦ g
    | some to_pos ↦ draw_edge g from_pos to_pos
  ]
])

unfoldable pub render_grid : Graph → GraphLayout → Option CellGrid
unfolding draw_boxes draw_edges
render_grid graph layout =
    elim (draw_boxes graph layout.nodes (new layout.total_cols layout.total_rows)) [
      | none ↦ none
      | some g ↦ some (draw_edges layout graph.edges g)
    ]
