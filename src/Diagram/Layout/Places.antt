-- ===== src/Diagram/Layout/Places.antt =====
-- Every node of a graph gets a place.
use oxiterm.Common.{
  ℕ, zero, suc, ◌+◌, ◌≤◌, ◌≡◌, refl, sym, ap, ◌∙◌, Bool, true, ◌||◌, some, List, [], ◌∷◌, arith,
  Bool-cases, List-cases, inl, inr, All, All-append, leb, ◌==◌,
}
use oxiterm.Common.Texts.{Text, text_eq, text_eq_self}
use oxiterm.Common.TextMap.{TextMap}
use oxiterm.Diagram.{DiagramNode, DiagramEdge, Graph, find_id}
use oxiterm.Diagram.Mermaid.Valid.{has_id}
use oxiterm.Diagram.Layout.{
  NodePosition, GraphLayout, Placed, layer_of, layer_group, groups_from, insert_by, sort_by_key,
  order_groups, order_all, barycenter, positions, push_node, position, next, first, place_group,
  place_groups, layer_groups, assign_layers, max_layer, finish, nothing_placed, laid,
  compute_layout, max,
}

-- Ids that stand for nodes of a graph.
pub AreNodes : Graph → List Text → Type 0
AreNodes g ids = All (λ id. has_id g.nodes id ≡ true) ids

find_id-has :
    (nodes : List DiagramNode) (id : Text)
    → has_id nodes id ≡ true
    → (n : DiagramNode) × (find_id nodes id ≡ some n)
unfolding has_id find_id
find_id-has [] id h = cc
find_id-has (n ∷ nodes) id h = elim (Bool-cases (text_eq n.id id)) [
  | inl e ↦ (n, rw e refl)
  | inr e ↦
      let (m, f) = find_id-has nodes id (sym (ap (λ b. b || has_id nodes id) e) ∙ h) in (m, rw e f)
]

or_true : (a b : Bool) → b ≡ true → (a || b) ≡ true
or_true a b h = ground arith

has_id_later :
    (n : DiagramNode) (all nodes : List DiagramNode)
    → All (λ (m : DiagramNode). has_id all m.id ≡ true) nodes
    → All (λ (m : DiagramNode). has_id (n ∷ all) m.id ≡ true) nodes
unfolding has_id
has_id_later n all [] h = h
has_id_later n all (m ∷ nodes) h =
    (or_true (text_eq n.id m.id) (has_id all m.id) h.0, has_id_later n all nodes h.1)

has_id_own : (nodes : List DiagramNode) → All (λ (m : DiagramNode). has_id nodes m.id ≡ true) nodes
unfolding has_id
has_id_own [] = tt
has_id_own (n ∷ nodes) = (
  ap (λ b. b || has_id nodes n.id) (text_eq_self n.id),
  has_id_later n nodes nodes (has_id_own nodes),
)

module _ (g : Graph) where
  layer_group-AreNodes :
      (layers : TextMap ℕ) (l : ℕ) (nodes : List DiagramNode)
      → All (λ (m : DiagramNode). has_id g.nodes m.id ≡ true) nodes
      → AreNodes g (layer_group layers l nodes)
  unfolding layer_group AreNodes
  layer_group-AreNodes layers l [] h = h
  layer_group-AreNodes layers l (n ∷ nodes) h = elim (Bool-cases (layer_of layers n.id == l)) [
    | inl e ↦ rw e (h.0, layer_group-AreNodes layers l nodes h.1)
    | inr e ↦ rw e (layer_group-AreNodes layers l nodes h.1)
  ]

  groups-AreNodes :
      (n l : ℕ) (layers : TextMap ℕ) → All (AreNodes g) (groups_from n l layers g.nodes)
  unfolding groups_from
  groups-AreNodes zero l layers = tt
  groups-AreNodes (suc n) l layers =
      (layer_group-AreNodes layers l g.nodes (has_id_own g.nodes), groups-AreNodes n (l + 1) layers)

  insert_by-AreNodes :
      (key : Text → ℕ) (id : Text) (ids : List Text)
      → has_id g.nodes id ≡ true
      → AreNodes g ids
      → AreNodes g (insert_by key id ids)
  unfolding insert_by AreNodes
  insert_by-AreNodes key id [] e h = (e, h)
  insert_by-AreNodes key id (j ∷ ids) e h = elim (Bool-cases (leb (key id) (key j))) [
    | inl c ↦ rw c (e, h)
    | inr c ↦ rw c (h.0, insert_by-AreNodes key id ids e h.1)
  ]

  sort-AreNodes :
      (key : Text → ℕ) (ids : List Text) → AreNodes g ids → AreNodes g (sort_by_key key ids)
  unfolding sort_by_key AreNodes
  sort-AreNodes key [] h = h
  sort-AreNodes key (id ∷ ids) h =
      insert_by-AreNodes key id (sort_by_key key ids) h.0 (sort-AreNodes key ids h.1)

  order-AreNodes :
      (edges : List DiagramEdge) (previous : List Text) (groups : List (List Text))
      → All (AreNodes g) groups
      → All (AreNodes g) (order_groups edges previous groups)
  unfolding order_groups
  order-AreNodes edges previous [] h = h
  order-AreNodes edges previous (group ∷ groups) h =
      let key = barycenter (positions previous 0 []) edges in
      (sort-AreNodes key group h.0, order-AreNodes edges (sort_by_key key group) groups h.1)

  order_all-AreNodes :
      (edges : List DiagramEdge) (groups : List (List Text))
      → All (AreNodes g) groups
      → All (AreNodes g) (order_all edges groups)
  unfolding order_all
  order_all-AreNodes edges [] h = h
  order_all-AreNodes edges (group ∷ groups) h = (h.0, order-AreNodes edges group groups h.1)

  layer_groups-AreNodes : All (AreNodes g) (layer_groups g)
  unfolding layer_groups
  layer_groups-AreNodes =
      order_all-AreNodes g.edges _
        (groups-AreNodes (max_layer (assign_layers g) + 1) 0 (assign_layers g))

  -- An invariant of the placing, which depends on the layer and on the next place in it.
  module _ (I : ℕ → ℕ → Placed → Type 0)
      (step : (layer c : ℕ) (id label : Text) (p : Placed)
        → I layer c p
        → I layer
            (next g.direction (position g.direction layer c id label))
            (push_node p (position g.direction layer c id label)))
      (turn : (layer c : ℕ) (p : Placed) → I layer c p → I (layer + 1) (first g.direction) p) where
    place_group-keeps :
        (layer c : ℕ) (ids : List Text) (p : Placed)
        → AreNodes g ids
        → I layer c p
        → (q : Placed) × (place_group g layer c ids p ≡ some q) × ((c' : ℕ) × I layer c' q)
    unfolding place_group AreNodes
    place_group-keeps layer c [] p h i = (p, refl, (c, i))
    place_group-keeps layer c (id ∷ ids) p h i =
        let (node, e) = find_id-has g.nodes id h.0 in
        let n = position g.direction layer c id node.label in
        let (q, f, k) =
          place_group-keeps layer (next g.direction n) ids (push_node p n) h.1
            (step layer c id node.label p i) in
        (q, rw (place_group, e, f) refl, k)

    place_groups-keeps :
        (layer : ℕ) (groups : List (List Text)) (p : Placed)
        → All (AreNodes g) groups
        → I layer (first g.direction) p
        → (q : Placed) × (place_groups g layer groups p ≡ some q)
          × ((layer' : ℕ) × (c : ℕ) × I layer' c q)
    unfolding place_groups
    place_groups-keeps layer [] p h i = (p, refl, (layer, first g.direction, i))
    place_groups-keeps layer (group ∷ groups) p h i =
        let (q, e, (c, j)) = place_group-keeps layer (first g.direction) group p h.0 i in
        let (r, f, k) = place_groups-keeps (layer + 1) groups q h.1 (turn layer c q j) in
        (r, rw (place_groups, e) f, k)

    -- The layout of a graph with nodes.
    pub layout-keeps :
        (n : DiagramNode) (ns : List DiagramNode)
        → g.nodes ≡ n ∷ ns
        → I 0 (first g.direction) nothing_placed
        → (p : Placed) × (compute_layout g ≡ some (finish p))
          × ((layer : ℕ) × (c : ℕ) × I layer c p)
    unfolding compute_layout
    layout-keeps n ns e i =
        let (p, f, k) =
          place_groups-keeps 0 (layer_groups g) nothing_placed layer_groups-AreNodes i in
        (
          p,
          ap (λ nodes. laid nodes (place_groups g 0 (layer_groups g) nothing_placed)) e
              ∙ ap (laid (n ∷ ns)) f,
          k,
        )

-- Each place lies within the extent, whose margins the next nodes keep.
pub Fits : Placed → Type 0
Fits p =
    All
      (λ (n : NodePosition). (n.col + n.width + 2 ≤ p.max_col) × (n.row + n.height + 1 ≤ p.max_row))
      p.nodes

le_max : (a b x : ℕ) → x ≤ a → x ≤ max a b
le_max a b x h = ground arith

max_le : (a b : ℕ) → b ≤ max a b
max_le a b = ground arith

wider :
    (nodes : List NodePosition) (a b c d : ℕ)
    → All (λ (n : NodePosition). (n.col + n.width + 2 ≤ a) × (n.row + n.height + 1 ≤ b)) nodes
    → All
        (λ (n : NodePosition). (n.col + n.width + 2 ≤ max a c) × (n.row + n.height + 1 ≤ max b d))
        nodes
wider [] a b c d h = h
wider (n ∷ nodes) a b c d h = ((le_max a c _ h.0.0, le_max b d _ h.0.1), wider nodes a b c d h.1)

push_node-Fits : (p : Placed) (n : NodePosition) → Fits p → Fits (push_node p n)
unfolding Fits
push_node-Fits p n h =
    All-append _ p.nodes (n ∷ [])
      (wider p.nodes p.max_col p.max_row (n.col + n.width + 2) (n.row + n.height + 1) h)
      ((max_le p.max_col (n.col + n.width + 2), max_le p.max_row (n.row + n.height + 1)), tt)

within :
    (nodes : List NodePosition) (a b : ℕ)
    → All (λ (n : NodePosition). (n.col + n.width + 2 ≤ a) × (n.row + n.height + 1 ≤ b)) nodes
    → All (λ (n : NodePosition). (n.col + n.width ≤ max a 20) × (n.row + n.height ≤ max b 10)) nodes
within [] a b h = h
within (n ∷ nodes) a b h = (
  (le_max a 20 _ (omega (arith, h.0.0)), le_max b 10 _ (omega (arith, h.0.1))),
  within nodes a b h.1,
)

-- Each node of a layout lies within its extent.
pub IsWithin : GraphLayout → Type 0
IsWithin l =
    All (λ (n : NodePosition). (n.col + n.width ≤ l.total_cols) × (n.row + n.height ≤ l.total_rows))
      l.nodes

-- Every graph has a layout: no look-up of a node panics. Each node lies within its extent.
compute_layout-IsWithin : (g : Graph) → (l : GraphLayout) × (compute_layout g ≡ some l) × IsWithin l
unfolding compute_layout IsWithin Fits
compute_layout-IsWithin g = elim (List-cases g.nodes) [
  | inl e ↦ (
    record { nodes = []; total_cols = 1; total_rows = 1 },
    ap (λ nodes. laid nodes (place_groups g 0 (layer_groups g) nothing_placed)) e,
    tt,
  )
  | inr (n, (ns, e)) ↦
      let (p, f, (_, _, h)) =
        layout-keeps g (λ layer c p. Fits p)
          (λ layer c id label p h. push_node-Fits p (position g.direction layer c id label) h)
          (λ layer c p h. h) n ns e tt in
      (finish p, f, within p.nodes p.max_col p.max_row h)
]
