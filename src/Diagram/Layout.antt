-- ===== src/Diagram/Layout.antt =====
-- oxiterm-renderer/src/diagram/layout.rs: the layers of a graph and the places of its nodes. What
-- panics where a node is missing gives none.
pub mod Places
pub mod Apart
mod Tests
use oxiterm.Common.{
  ℕ, zero, suc, ◌+◌, ◌*◌, ◌/◌, Bool, true, false, Option, none, some, List, [], ◌∷◌, ◌++◌, ◌==◌,
  ltb, leb, length, if◌then◌else◌,
}
use oxiterm.Common.Texts.{Text, text_eq, text_len}
use oxiterm.Common.TextMap.{TextMap, value_of, insert}
use oxiterm.Diagram.{
  Direction, td, lr, DiagramNode, DiagramEdge, Graph, get_node, in_degree, find_id, count_to,
}

pub record NodePosition : Type 0 where
  pub id : Text
  pub col : ℕ
  pub row : ℕ
  pub width : ℕ
  pub height : ℕ
  pub layer : ℕ

pub record GraphLayout : Type 0 where
  pub nodes : List NodePosition
  pub total_cols : ℕ
  pub total_rows : ℕ

abbrev pub max : ℕ → ℕ → ℕ
max a b = if ltb a b then b else a

-- A missing layer is 0.
abbrev pub layer_of : TextMap ℕ → Text → ℕ
unfolding value_of
layer_of layers id = elim (value_of layers id) [ none ↦ 0 | some l ↦ l ]

unfoldable pub root_layers : Graph → List DiagramNode → TextMap ℕ → TextMap ℕ
unfolding insert in_degree
root_layers g [] layers = layers
root_layers g (n ∷ nodes) layers =
    root_layers g nodes (if in_degree g n.id == 0 then insert layers n.id 0 else layers)

-- One pass over the edges: whether a layer has changed, and the layers.
unfoldable pub pass : List DiagramEdge → Bool → TextMap ℕ → Bool × TextMap ℕ
unfolding layer_of insert
pass [] changed layers = (changed, layers)
pass (e ∷ edges) changed layers =
    let from_layer = layer_of layers e.from in
    let to_layer = layer_of layers e.to in
    let late = ltb to_layer (from_layer + 1) in
    pass edges (if late then true else changed)
      (insert layers e.to (if late then from_layer + 1 else to_layer))

unfoldable pub passes : ℕ → List DiagramEdge → TextMap ℕ → TextMap ℕ
unfolding pass
passes zero edges layers = layers
passes (suc n) edges layers = elim (pass edges false layers).0 [
  | true ↦ passes n edges (pass edges false layers).1
  | false ↦ (pass edges false layers).1
]

unfoldable pub assign_layers : Graph → TextMap ℕ
unfolding passes root_layers
assign_layers g = passes (length g.nodes + 1) g.edges (root_layers g g.nodes [])

unfoldable pub max_layer : TextMap ℕ → ℕ
max_layer [] = 0
max_layer ((id, l) ∷ layers) = max l (max_layer layers)

-- The nodes of a layer.
unfoldable pub layer_group : TextMap ℕ → ℕ → List DiagramNode → List Text
unfolding layer_of
layer_group layers l [] = []
layer_group layers l (n ∷ nodes) =
    let rest = layer_group layers l nodes in if layer_of layers n.id == l then n.id ∷ rest else rest

-- The groups of some layers from one on.
unfoldable pub groups_from : ℕ → ℕ → TextMap ℕ → List DiagramNode → List (List Text)
unfolding layer_group
groups_from zero l layers nodes = []
groups_from (suc n) l layers nodes = layer_group layers l nodes ∷ groups_from n (l + 1) layers nodes

unfoldable pub positions : List Text → ℕ → TextMap ℕ → TextMap ℕ
unfolding insert
positions [] idx m = m
positions (id ∷ ids) idx m = positions ids (idx + 1) (insert m id idx)

-- The number of edges into a node, and the sum of the positions that they come from.
unfoldable pub sources : TextMap ℕ → List DiagramEdge → Text → ℕ × ℕ
unfolding layer_of text_eq
sources prev [] id = (0, 0)
sources prev (e ∷ edges) id =
    let (n, sum) = sources prev edges id in
    if text_eq e.to id then (suc n, layer_of prev e.from + sum) else (n, sum)

abbrev pub barycenter : TextMap ℕ → List DiagramEdge → Text → ℕ
unfolding sources
barycenter prev edges id = let (n, sum) = sources prev edges id in if n == 0 then 0 else sum / n

-- A stable sort by a key, as that of the standard library.
unfoldable pub insert_by : (Text → ℕ) → Text → List Text → List Text
insert_by key id [] = id ∷ []
insert_by key id (j ∷ ids) =
    let later = insert_by key id ids in if leb (key id) (key j) then id ∷ j ∷ ids else j ∷ later

unfoldable pub sort_by_key : (Text → ℕ) → List Text → List Text
unfolding insert_by
sort_by_key key [] = []
sort_by_key key (id ∷ ids) = insert_by key id (sort_by_key key ids)

-- The groups behind a group.
unfoldable pub order_groups : List DiagramEdge → List Text → List (List Text) → List (List Text)
unfolding sort_by_key barycenter positions
order_groups edges previous [] = []
order_groups edges previous (group ∷ groups) =
    let sorted = sort_by_key (barycenter (positions previous 0 []) edges) group in
    sorted ∷ order_groups edges sorted groups

abbrev pub order_all : List DiagramEdge → List (List Text) → List (List Text)
unfolding order_groups
order_all edges [] = []
order_all edges (group ∷ groups) = group ∷ order_groups edges group groups

-- What is placed so far.
pub record Placed : Type 0 where
  pub nodes : List NodePosition
  pub max_col : ℕ
  pub max_row : ℕ

abbrev pub box_width : Text → ℕ
unfolding text_len
box_width label = max (text_len label + 4) 8

abbrev pub push_node : Placed → NodePosition → Placed
push_node p n = record {
  nodes = p.nodes ++ n ∷ [];
  max_col = max p.max_col (n.col + n.width + 2);
  max_row = max p.max_row (n.row + n.height + 1);
}

unfoldable pub position : Direction → ℕ → ℕ → Text → Text → NodePosition
unfolding text_len
position td layer current id label = record {
  id = id;
  col = current;
  row = layer * 5 + 1;
  width = box_width label;
  height = 3;
  layer = layer;
}
position lr layer current id label = record {
  id = id;
  col = layer * 20 + 2;
  row = current;
  width = box_width label;
  height = 3;
  layer = layer;
}

-- Where the next node of a group is placed, behind a node.
abbrev pub next : Direction → NodePosition → ℕ
next td n = n.col + (n.width + 4)
next lr n = n.row + (n.height + 2)

abbrev pub first : Direction → ℕ
first td = 2
first lr = 1

unfoldable pub place_group : Graph → ℕ → ℕ → List Text → Placed → Option Placed
unfolding get_node text_len position
place_group g layer current [] p = some p
place_group g layer current (id ∷ ids) p = elim (get_node g id) [
  | none ↦ none
  | some node ↦
      let n = position g.direction layer current id node.label in
      place_group g layer (next g.direction n) ids (push_node p n)
]

unfoldable pub place_groups : Graph → ℕ → List (List Text) → Placed → Option Placed
unfolding place_group
place_groups g layer [] p = some p
place_groups g layer (group ∷ groups) p = elim (place_group g layer (first g.direction) group p) [
  | none ↦ none
  | some q ↦ place_groups g (layer + 1) groups q
]

abbrev pub layer_groups : Graph → List (List Text)
unfolding assign_layers max_layer groups_from order_all
layer_groups g =
    let layers = assign_layers g in
    order_all g.edges (groups_from (max_layer layers + 1) 0 layers g.nodes)

abbrev pub finish : Placed → GraphLayout
finish p = record { nodes = p.nodes; total_cols = max p.max_col 20; total_rows = max p.max_row 10 }

abbrev pub nothing_placed : Placed
nothing_placed = record { nodes = []; max_col = 0; max_row = 0 }

-- The layout of some nodes that are placed, or else the one of no nodes.
abbrev pub laid : List DiagramNode → Option Placed → Option GraphLayout
laid [] placed = some (record { nodes = []; total_cols = 1; total_rows = 1 })
laid (_ ∷ _) none = none
laid (_ ∷ _) (some p) = some (finish p)

unfoldable pub compute_layout : Graph → Option GraphLayout
unfolding layer_groups place_groups
compute_layout g = laid g.nodes (place_groups g 0 (layer_groups g) nothing_placed)
