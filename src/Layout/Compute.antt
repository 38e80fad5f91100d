-- ===== src/Layout/Compute.antt =====
-- oxiterm-renderer/src/layout/engine.rs: what `LayoutEngine::compute` makes of the layout that the
-- crate `taffy` has found, and `hit_test`. What Taffy says of a node is a parameter: none where the
-- node is not in the tree or not displayed, and within it none where the layout is missing, else the
-- rounded rectangle in the parent. The recursions are on fuel, which stands for the stack.
mod Tests
pub mod Ends
pub mod Painted
pub mod Covered
pub mod Found
use oxiterm.Common.{
  ℕ, zero, suc, ◌+◌, ◌%◌, ◌^◌, Bool, true, false, Option, none, some, List, [], ◌∷◌, ◌++◌, lookup,
  ◌==◌, ◌||◌, ltb, leb, if◌then◌else◌,
}
use oxiterm.Common.Outcome.{Result, ok, err}
use oxiterm.Common.Int.{ℤ, pos, negsuc}
use oxiterm.Style.Computed.{ComputedStyle, Position}
use oxiterm.Dom.{Node}
use oxiterm.Arena.{get}
use oxiterm.Document.{ThtmlDocument, clear_dirty}
use oxiterm.Layout.{Rect, LayoutResult, find_node}

pub data LayoutError : Type 0 where
  layout_missing too_deep : LayoutError

-- `HashMap::insert`
unfoldable pub insert_rect : List (ℕ × Rect) → ℕ → Rect → List (ℕ × Rect)
insert_rect [] k v = (k, v) ∷ []
insert_rect ((i, w) ∷ m) k v = if i == k then (i, v) ∷ m else (i, w) ∷ insert_rect m k v

-- `cmp` gives no `Greater`.
abbrev pub int_leb : ℤ → ℤ → Bool
int_leb (pos a) (pos b) = leb a b
int_leb (negsuc a) (negsuc b) = leb b a
int_leb (negsuc a) (pos b) = true
int_leb (pos a) (negsuc b) = false

-- `sort_by`, which is stable, with the comparison of a key.
unfoldable pub insert_in_order : (ℕ → ℤ) → ℕ → List ℕ → List ℕ
insert_in_order key i [] = i ∷ []
insert_in_order key i (j ∷ js) =
    if int_leb (key i) (key j) then i ∷ j ∷ js else j ∷ insert_in_order key i js

unfoldable pub sort_by : (ℕ → ℤ) → List ℕ → List ℕ
unfolding insert_in_order
sort_by key [] = []
sort_by key (i ∷ ids) = insert_in_order key i (sort_by key ids)

-- What one node adds to the paint order, before what the others add.
abbrev pub both_parts : Option (List ℕ) → Option (List ℕ) → Option (List ℕ)
both_parts (some part) (some rest) = some (part ++ rest)
both_parts (some part) none = none
both_parts none rest = none

abbrev pub with_first : ℕ → Option (List ℕ) → Option (List ℕ)
with_first id none = none
with_first id (some rest) = some (id ∷ rest)

-- The loop over the children, by what collects one.
unfoldable pub collect_all : (ℕ → Option (List ℕ)) → List ℕ → Option (List ℕ)
collect_all collect [] = some []
collect_all collect (id ∷ ids) = both_parts (collect id) (collect_all collect ids)

-- The rectangle of a node on the screen, by that of its parent.
abbrev pub absolute_rect : Bool → ℕ → ℕ → Rect → Rect
absolute_rect true parent_x parent_y rect = rect
absolute_rect false parent_x parent_y rect = record rect {
  x = (parent_x + rect.x) % 2 ^ 16;
  y = (parent_y + rect.y) % 2 ^ 16;
}

-- The loop over the children, by what flattens one.
unfoldable pub flatten_all :
    (ℕ → List (ℕ × Rect) → Result LayoutError (List (ℕ × Rect)))
    → List ℕ
    → List (ℕ × Rect)
    → Result LayoutError (List (ℕ × Rect))
flatten_all flatten [] nodes = ok nodes
flatten_all flatten (id ∷ ids) nodes = elim (flatten id nodes) [
  | err e ↦ err e
  | ok nodes ↦ flatten_all flatten ids nodes
]

module _ {F : Type 0} where
  abbrev pub z_or_zero : Option (Node (ComputedStyle F ℤ)) → ℤ
  z_or_zero none = pos 0
  z_or_zero (some node) = elim node.style.z_index [ none ↦ pos 0 | some z ↦ z ]

  pub z_of : ThtmlDocument (ComputedStyle F ℤ) → ℕ → ℤ
  unfolding get
  z_of doc id = z_or_zero (get doc.arena id)

  unfoldable pub collect_paint_order_recursive :
      ℕ → ThtmlDocument (ComputedStyle F ℤ) → List (ℕ × Rect) → ℕ → Option (List ℕ)
  unfolding collect_all sort_by z_of get
  collect_paint_order_recursive zero doc nodes node_id = none
  collect_paint_order_recursive (suc fuel) doc nodes node_id = elim (lookup nodes node_id) [
    | none ↦ some []
    | some _ ↦ elim (get doc.arena node_id) [
      | none ↦ some (node_id ∷ [])
      | some node ↦ with_first node_id (
          collect_all (collect_paint_order_recursive fuel doc nodes)
            (sort_by (z_of doc) node.children))
    ]
  ]

  abbrev pub is_fixed : Node (ComputedStyle F ℤ) → Bool
  is_fixed node = elim node.style.position [ Position.fixed ↦ true | _ ↦ false ]

  unfoldable pub flatten_layout_recursive :
      ℕ
      → ThtmlDocument (ComputedStyle F ℤ)
      → (ℕ → Option (Option Rect))
      → ℕ
      → ℕ
      → ℕ
      → List (ℕ × Rect)
      → Result LayoutError (List (ℕ × Rect))
  unfolding flatten_all insert_rect get
  flatten_layout_recursive zero doc taffy parent_x parent_y oxi_id nodes = err too_deep
  flatten_layout_recursive (suc fuel) doc taffy parent_x parent_y oxi_id nodes =
      elim (taffy oxi_id) [
        | none ↦ ok nodes
        | some none ↦ err layout_missing
        | some (some rect) ↦ elim (get doc.arena oxi_id) [
          | none ↦ ok (insert_rect nodes oxi_id (absolute_rect false parent_x parent_y rect))
          | some node ↦
              let abs = absolute_rect (is_fixed node) parent_x parent_y rect in
              flatten_all (flatten_layout_recursive fuel doc taffy abs.x abs.y) node.children
                (insert_rect nodes oxi_id abs)
        ]
      ]

  abbrev pub skipped : Option (Node (ComputedStyle F ℤ)) → Bool
  skipped none = false
  skipped (some node) = is_fixed node

  -- The loop that finds `max_bottom`.
  pub max_bottom_from : ThtmlDocument (ComputedStyle F ℤ) → List (ℕ × Rect) → ℕ → ℕ
  unfolding get
  max_bottom_from doc [] max_bottom = max_bottom
  max_bottom_from doc ((node_id, rect) ∷ nodes) max_bottom =
      let bottom = (rect.y + rect.height) % 2 ^ 16 in
      max_bottom_from doc nodes (
        if node_id == doc.root || skipped (get doc.arena node_id)
        then max_bottom
        else (if ltb max_bottom bottom then bottom else max_bottom))

  -- The result with a paint order, if there is one.
  unfoldable pub with_paint_order :
      ThtmlDocument (ComputedStyle F ℤ)
      → List (ℕ × Rect)
      → Option (List ℕ)
      → Result LayoutError (LayoutResult × ThtmlDocument (ComputedStyle F ℤ))
  unfolding max_bottom_from
  with_paint_order doc nodes none = err too_deep
  with_paint_order doc nodes (some paint_order) =
      let total_height = max_bottom_from doc nodes 0 in
      ok (record { nodes = nodes; paint_order = paint_order; total_height = total_height }, doc)

  -- `compute` behind `compute_layout_with_measure`: the result, and the document without dirty nodes.
  unfoldable pub compute_result :
      ℕ
      → ThtmlDocument (ComputedStyle F ℤ)
      → (ℕ → Option (Option Rect))
      → Result LayoutError (LayoutResult × ThtmlDocument (ComputedStyle F ℤ))
  unfolding flatten_layout_recursive collect_paint_order_recursive with_paint_order
  compute_result fuel doc taffy = elim (flatten_layout_recursive fuel doc taffy 0 0 doc.root []) [
    | err e ↦ err e
    | ok nodes ↦
        with_paint_order (clear_dirty doc) nodes
          (collect_paint_order_recursive fuel (clear_dirty doc) nodes doc.root)
  ]

-- `LayoutEngine::hit_test`, by the field `last_layout`.
unfoldable pub hit_test : Option LayoutResult → ℕ → ℕ → Option ℕ
unfolding find_node
hit_test none x y = none
hit_test (some layout) x y = find_node layout x y
