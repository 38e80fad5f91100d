-- ===== src/Layout/Compute/Ends.antt =====
-- `LayoutEngine::compute` of oxiterm-renderer/src/layout/engine.rs ends on documents that are trees.
use oxiterm.Common.{
  ℕ, zero, suc, ◌≤◌, ◌≡◌, ◌≢◌, refl, Option, none, some, List, [], ◌∷◌, ◌++◌, arith, lookup,
  Bool-cases, Option-cases, inl, inr,
}
use oxiterm.Common.Outcome.{Result, ok, err}
use oxiterm.Common.Int.{ℤ}
use oxiterm.Style.Computed.{ComputedStyle}
use oxiterm.Dom.{Node}
use oxiterm.Arena.{NodeArena}
use oxiterm.Document.{ThtmlDocument, clear_dirty}
use oxiterm.Document.Forest.{Forest, tree, no_trees, size, AreTrees}
use oxiterm.Layout.{Rect, LayoutResult}
use oxiterm.Layout.Compute.{
  LayoutError, insert_rect, int_leb, insert_in_order, sort_by, both_parts, collect_all, flatten_all,
  is_fixed, absolute_rect, z_of, collect_paint_order_recursive, flatten_layout_recursive,
  max_bottom_from, with_paint_order, compute_result,
}

module _ {Style : Type 0} (a : NodeArena Style) (P : ℕ → Type 0) (key : ℕ → ℤ) where
  -- Trees that stand at some ids, of a size.
  abbrev Trees : List ℕ → ℕ → Type 0
  Trees ids n = (trees : Forest Style) × AreTrees a P ids trees × (size trees ≡ n)

  insert_in_order-Trees :
      (id : ℕ) (ids : List ℕ) (node : Node Style) (below beside : Forest Style)
      → AreTrees a P (id ∷ ids) (tree node below beside)
      → Trees (insert_in_order key id ids) (size (tree node below beside))
  unfolding insert_in_order AreTrees size
  insert_in_order-Trees id [] node below no_trees h = (tree node below no_trees, h, refl)
  insert_in_order-Trees id [] node below (tree next under others) (p, t, rest) = absurd rest
  insert_in_order-Trees id (j ∷ js) node below no_trees (p, t, rest) = absurd rest
  insert_in_order-Trees id (j ∷ js) node below (tree next under others) (p, t, (q, u, rest)) =
      elim (Bool-cases (int_leb (key id) (key j))) [
        | inl e ↦ rw e (tree node below (tree next under others), (p, t, (q, u, rest)), refl)
        | inr e ↦
            let (more, h, same) = insert_in_order-Trees id js node below others (p, t, rest) in
            rw e (tree next under more, (q, u, h), omega (arith, same))
      ]

  pub sort_by-Trees :
      (ids : List ℕ) (trees : Forest Style)
      → AreTrees a P ids trees
      → Trees (sort_by key ids) (size trees)
  unfolding sort_by AreTrees size
  sort_by-Trees [] no_trees h = (no_trees, h, refl)
  sort_by-Trees [] (tree node below beside) h = absurd h
  sort_by-Trees (id ∷ ids) no_trees h = absurd h
  sort_by-Trees (id ∷ ids) (tree node below beside) (p, t, rest) =
      let (others, h, same) = sort_by-Trees ids beside rest in
      let (all, k, whole) =
        insert_in_order-Trees id (sort_by key ids) node below others (p, t, h) in
      (all, k, omega (arith, whole, same))

part-some :
    (part : Option (List ℕ)) (order : List ℕ)
    → both_parts part (some []) ≡ some order
    → (ids : List ℕ) × (part ≡ some ids)
part-some none order h = cc
part-some (some ids) order h = (ids, refl)

only-ok :
    (r : Result LayoutError (List (ℕ × Rect))) (nodes : List (ℕ × Rect))
    → elim r [ err e ↦ err e | ok nodes ↦ ok nodes ] ≡ ok nodes
    → r ≡ ok nodes
only-ok (ok nodes') nodes h = h
only-ok (err e) nodes h = h

module _ {F : Type 0} (doc : ThtmlDocument (ComputedStyle F ℤ)) (P : ℕ → Type 0) where
  collect_all-ends :
      (fuel : ℕ) (nodes : List (ℕ × Rect)) (ids : List ℕ) (trees : Forest (ComputedStyle F ℤ))
      → AreTrees doc.arena P ids trees
      → size trees ≤ fuel
      → (order : List ℕ) × (collect_all (collect_paint_order_recursive fuel doc nodes) ids
          ≡ some order)
  unfolding collect_all collect_paint_order_recursive AreTrees size
  collect_all-ends fuel nodes [] no_trees h le = ([], refl)
  collect_all-ends fuel nodes [] (tree node below beside) h le = absurd h
  collect_all-ends fuel nodes (id ∷ ids) no_trees h le = absurd h
  collect_all-ends zero nodes (id ∷ ids) (tree node below beside) h le = absurd (omega (arith, le))
  collect_all-ends (suc fuel) nodes (id ∷ ids) (tree node below beside) (p, (m, g, e, ts), rest)
        le =
      let (others, f) = collect_all-ends (suc fuel) nodes ids beside rest (omega (arith, le)) in
      elim (Option-cases (lookup nodes id)) [
        | inl missing ↦ (others, rw (collect_all, collect_paint_order_recursive, missing, f) refl)
        | inr (r, there) ↦
            let (sorted, k, same) = sort_by-Trees doc.arena P (z_of doc) m.children below ts in
            let (part, d) =
              collect_all-ends fuel nodes (sort_by (z_of doc) m.children) sorted k
                (omega (arith, le, same)) in
            (
              id ∷ part ++ others,
              rw (collect_all, collect_paint_order_recursive, there, g, d, f) refl,
            )
      ]

  flatten_all-ends :
      (taffy : ℕ → Option (Option Rect)) (fuel parent_x parent_y : ℕ) (nodes : List (ℕ × Rect))
      (ids : List ℕ) (trees : Forest (ComputedStyle F ℤ))
      → ((id : ℕ) → taffy id ≢ some none)
      → AreTrees doc.arena P ids trees
      → size trees ≤ fuel
      → (laid : List (ℕ × Rect)) × (flatten_all
            (flatten_layout_recursive fuel doc taffy parent_x parent_y)
            ids
            nodes
          ≡ ok laid)
  unfolding flatten_all flatten_layout_recursive AreTrees size
  flatten_all-ends taffy fuel px py nodes [] no_trees known h le = (nodes, refl)
  flatten_all-ends taffy fuel px py nodes [] (tree node below beside) known h le = absurd h
  flatten_all-ends taffy fuel px py nodes (id ∷ ids) no_trees known h le = absurd h
  flatten_all-ends taffy zero px py nodes (id ∷ ids) (tree node below beside) known h le =
      absurd (omega (arith, le))
  flatten_all-ends taffy (suc fuel) px py nodes (id ∷ ids) (tree node below beside) known
        (p, (m, g, e, ts), rest) le =
      elim (Option-cases (taffy id)) [
        | inl missing ↦
            let (laid, f) =
              flatten_all-ends taffy (suc fuel) px py nodes ids beside known rest
                (omega (arith, le)) in
            (laid, rw (flatten_all, flatten_layout_recursive, missing) f)
        | inr (none, there) ↦ absurd (known id there)
        | inr (some rect, there) ↦
            let abs = absolute_rect (is_fixed m) px py rect in
            let (under, d) =
              flatten_all-ends taffy fuel abs.x abs.y (insert_rect nodes id abs) m.children below
                known ts (omega (arith, le)) in
            let (laid, f) =
              flatten_all-ends taffy (suc fuel) px py under ids beside known rest
                (omega (arith, le)) in
            (laid, rw (flatten_all, flatten_layout_recursive, there, g, d) f)
      ]

-- If the document is a tree in its arena and Taffy has a layout of each node that is displayed, then
-- `compute` ends with a result, on fuel for as many levels as the tree has nodes.
pub compute_result-ends :
    {F : Type 0} (doc : ThtmlDocument (ComputedStyle F ℤ)) (P : ℕ → Type 0)
    (taffy : ℕ → Option (Option Rect)) (fuel : ℕ) (node : Node (ComputedStyle F ℤ))
    (below : Forest (ComputedStyle F ℤ))
    → ((id : ℕ) → taffy id ≢ some none)
    → AreTrees doc.arena P (doc.root ∷ []) (tree node below no_trees)
    → size (tree node below no_trees) ≤ fuel
    → (result : LayoutResult) × (compute_result fuel doc taffy ≡ ok (result, clear_dirty doc))
unfolding compute_result with_paint_order
compute_result-ends doc P taffy fuel node below known h le =
    let trees = tree node below no_trees in
    let (nodes, f) = flatten_all-ends doc P taffy fuel 0 0 [] (doc.root ∷ []) trees known h le in
    let (order, c) = collect_all-ends (clear_dirty doc) P fuel nodes (doc.root ∷ []) trees h le in
    let (paint_order, d) =
      part-some (collect_paint_order_recursive fuel (clear_dirty doc) nodes doc.root) order c in
    let g = only-ok (flatten_layout_recursive fuel doc taffy 0 0 doc.root []) nodes f in
    let result : LayoutResult = record {
      nodes = nodes;
      paint_order = paint_order;
      total_height = max_bottom_from (clear_dirty doc) nodes 0;
    } in
    (result, rw (compute_result, g, d) refl)
