-- ===== src/Layout/Compute/Found.antt =====
-- What `LayoutEngine::hit_test` of oxiterm-renderer/src/layout/engine.rs finds in the result of
-- `compute`.
use oxiterm.Common.{
  ℕ, ◌-◌, ◌^◌, ◌≡◌, refl, sym, subst, Option, none, some, List, [], ◌∷◌, All, ==_iff, inl, inr,
}
use oxiterm.Common.Outcome.{Result, ok, err}
use oxiterm.Common.Int.{ℤ}
use oxiterm.Style.Computed.{ComputedStyle}
use oxiterm.Dom.{Node}
use oxiterm.Arena.{get}
use oxiterm.Document.{ThtmlDocument, clear_dirty}
use oxiterm.Layout.{Rect, LayoutResult, find_node, find_smallest}
use oxiterm.Layout.Hit.{Fits, Hit, Missed, TopMost, find_node-TopMost}
use oxiterm.Layout.Compute.{
  LayoutError, collect_paint_order_recursive, flatten_layout_recursive, max_bottom_from,
  with_paint_order, compute_result, hit_test,
}
use oxiterm.Layout.Compute.Painted.{
  Among, Laid, IfSome, ChildrenBehind, ChildrenBehind-at, AllPainted, collect-painted,
}
use oxiterm.Layout.Compute.Covered.{Flat, IfOk, flatten-Flat}

Missed-All :
    (nodes : List (ℕ × Rect)) (col row : ℕ) (order : List ℕ) (k : ℕ)
    → All (Missed nodes col row) order
    → Among k order
    → Missed nodes col row k
Missed-All nodes col row [] k h a = absurd a
Missed-All nodes col row (i ∷ order) k h (inl e) = subst (Missed nodes col row) (sym e) h.0
Missed-All nodes col row (i ∷ order) k h (inr a) = Missed-All nodes col row order k h.1 a

Missed-Laid :
    (nodes : List (ℕ × Rect)) (col row : ℕ) (cs above : List ℕ)
    → All (Missed nodes col row) above
    → All (λ c. Laid nodes c → Among c above) cs
    → All (Missed nodes col row) cs
Missed-Laid nodes col row [] above h b = tt
Missed-Laid nodes col row (c ∷ cs) above h b = (
  (λ r e inside. Missed-All nodes col row above c h (b.0 (r, e)) r e inside),
  Missed-Laid nodes col row cs above h b.1,
)

none≢some : {r : Rect} → none ≡ some r → ⊥
none≢some h = cc

module _ {F : Type 0} (doc : ThtmlDocument (ComputedStyle F ℤ)) (col row : ℕ) where
  -- What a hit test may find: the rectangle of the node has the place and that of no child has it;
  -- nothing, only where no rectangle has the place.
  abbrev pub Found : List (ℕ × Rect) → Option ℕ → Type 0
  Found nodes none = (k : ℕ) → Missed nodes col row k
  Found nodes (some id) =
      Hit nodes col row id
      × ((m : Node (ComputedStyle F ℤ))
          → get doc.arena id ≡ some m
          → All (Missed nodes col row) m.children)

  TopMost-Found :
      (nodes : List (ℕ × Rect)) (order : List ℕ) (found : Option ℕ)
      → ChildrenBehind doc nodes order
      → ((k : ℕ) → Laid nodes k → Among k order)
      → TopMost nodes col row order found
      → Found nodes found
  TopMost-Found nodes order none behind whole missed =
      λ k r e inside. Missed-All nodes col row order k missed (whole k (r, e)) r e inside
  TopMost-Found nodes order (some id) behind whole (below, above, e, hit, missed) = (
    hit,
    (λ m g.
        let split = subst (ChildrenBehind doc nodes) e behind in
        Missed-Laid nodes col row m.children above missed
          (ChildrenBehind-at doc nodes below id above m split g)),
  )

  empty-Found :
      (nodes : List (ℕ × Rect)) (area : ℕ)
      → ((k : ℕ) → Laid nodes k → ⊥)
      → Found nodes (find_smallest col row nodes none area)
  unfolding find_smallest
  empty-Found [] area whole = λ k r e inside. cc
  empty-Found ((k, v) ∷ nodes) area whole = absurd (whole k (rw ((==_iff k k).1 refl) (v, refl)))

  result-Found :
      (nodes : List (ℕ × Rect)) (paint_order : List ℕ) (total_height : ℕ)
      → All Fits nodes
      → ChildrenBehind doc nodes paint_order
      → ((k : ℕ) → Laid nodes k → Among k paint_order)
      → Found nodes (
          find_node
            (record { nodes = nodes; paint_order = paint_order; total_height = total_height })
            col
            row)
  unfolding find_node
  result-Found nodes [] total fits behind whole = empty-Found nodes (2 ^ 32 - 1) whole
  result-Found nodes (i ∷ ids) total fits behind whole =
      let result : LayoutResult = record {
        nodes = nodes;
        paint_order = i ∷ ids;
        total_height = total;
      } in
      TopMost-Found nodes (i ∷ ids) (find_node result col row) behind whole
        (find_node-TopMost result col row fits (λ e. cc))

  painted-Found :
      (nodes : List (ℕ × Rect)) (order : Option (List ℕ)) (result : LayoutResult)
      → IfSome (ChildrenBehind doc nodes) order
      → ((k : ℕ) → Laid nodes k → IfSome (Among k) order)
      → with_paint_order (clear_dirty doc) nodes order ≡ ok (result, clear_dirty doc)
      → All Fits result.nodes
      → Found result.nodes (find_node result col row)
  unfolding with_paint_order
  painted-Found nodes none result behind whole e = cc
  painted-Found nodes (some order) result behind whole e =
      let same : (record {
        nodes = nodes;
        paint_order = order;
        total_height = max_bottom_from (clear_dirty doc) nodes 0;
      })
          ≡ result =
        cc in
      subst (λ r. All Fits r.nodes → Found r.nodes (find_node r col row)) same
        (λ fits. result-Found nodes order _ fits behind whole)

  only-behind :
      (nodes : List (ℕ × Rect)) (order : Option (List ℕ))
      → IfSome (AllPainted (clear_dirty doc) nodes (doc.root ∷ [])) order
      → IfSome (ChildrenBehind doc nodes) order
  only-behind nodes none h = tt
  only-behind nodes (some order) h = h.0

  computed-Found :
      (fuel : ℕ) (laid : Result LayoutError (List (ℕ × Rect))) (result : LayoutResult)
      → IfOk (Flat doc fuel (doc.root ∷ []) []) laid
      → elim laid [
        | err e ↦ err e
        | ok nodes ↦
            with_paint_order
              (clear_dirty doc)
              nodes
              (collect_paint_order_recursive fuel (clear_dirty doc) nodes doc.root)
      ]
        ≡ ok (result, clear_dirty doc)
      → All Fits result.nodes
      → Found result.nodes (find_node result col row)
  computed-Found fuel (err e) result flat h fits = cc
  computed-Found fuel (ok nodes) result (grows, covered) h fits =
      painted-Found nodes (collect_paint_order_recursive fuel (clear_dirty doc) nodes doc.root)
        result (only-behind nodes _ (collect-painted (clear_dirty doc) nodes fuel doc.root))
        (λ k laid. elim (covered nodes k (λ j l. l) laid) [
          | inl (r, e) ↦ absurd (none≢some e)
          | inr (inl among) ↦ among
          | inr (inr never) ↦ absurd never
        ])
        h fits

  -- The result of `compute` and the hit test agree, whatever the document, its `z_index`es and the
  -- layout that Taffy found: the rectangle of the node that is found has the place and that of no
  -- child of it has it, and where nothing is found no rectangle of the result has the place. The
  -- rectangles end within 16 bits.
  pub hit_test-Found :
      (fuel : ℕ) (taffy : ℕ → Option (Option Rect)) (result : LayoutResult)
      → compute_result fuel doc taffy ≡ ok (result, clear_dirty doc)
      → All Fits result.nodes
      → Found result.nodes (hit_test (some result) col row)
  unfolding compute_result hit_test
  hit_test-Found fuel taffy result h fits =
      computed-Found fuel (flatten_layout_recursive fuel doc taffy 0 0 doc.root []) result
        (flatten-Flat doc taffy fuel 0 0 doc.root []) h fits
