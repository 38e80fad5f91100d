-- ===== src/Layout/Compute/Covered.antt =====
-- Each node with a rectangle is in the paint order: `flatten_layout_recursive` and
-- `collect_paint_order_recursive` of oxiterm-renderer/src/layout/engine.rs go through the same nodes.
use oxiterm.Common.{
  ℕ, zero, suc, ◌≡◌, refl, sym, ◌∙◌, true, false, Option, none, some, List, [], ◌∷◌, lookup,
  Bool-cases, Option-cases, ◌⊎◌, inl, inr, ◌==◌, ==_iff, if◌then◌else◌, arith,
}
use oxiterm.Common.Outcome.{Result, ok, err}
use oxiterm.Common.Int.{ℤ}
use oxiterm.Style.Computed.{ComputedStyle}
use oxiterm.Dom.{Node}
use oxiterm.Arena.{get}
use oxiterm.Document.{ThtmlDocument, clear_dirty}
use oxiterm.Layout.{Rect}
use oxiterm.Layout.Compute.{
  LayoutError, insert_rect, int_leb, insert_in_order, sort_by, both_parts, with_first, collect_all,
  flatten_all, is_fixed, absolute_rect, z_of, collect_paint_order_recursive,
  flatten_layout_recursive,
}
use oxiterm.Layout.Hit.{clash}
use oxiterm.Layout.Compute.Painted.{Among, Among-left, Among-right, Laid, IfSome}

lookup-insert_rect :
    (nodes : List (ℕ × Rect)) (id : ℕ) (v : Rect) (k : ℕ)
    → lookup (insert_rect nodes id v) k ≡ (if id == k then some v else lookup nodes k)
unfolding insert_rect
lookup-insert_rect [] id v k = refl
lookup-insert_rect ((i, w) ∷ nodes) id v k =
    ground (arith, ==_iff i id, ==_iff i k, ==_iff id k, lookup-insert_rect nodes id v k)

same-id : (k : ℕ) → (k == k) ≡ true
same-id k = (==_iff k k).1 refl

insert_rect-Laid :
    (nodes : List (ℕ × Rect)) (id : ℕ) (v : Rect) (k : ℕ)
    → (k ≡ id) ⊎ Laid nodes k
    → Laid (insert_rect nodes id v) k
insert_rect-Laid nodes id v k h = elim (Bool-cases (id == k)) [
  | inl e ↦ rw (lookup-insert_rect nodes id v k, e) (v, refl)
  | inr e ↦ elim h [
    | inl same ↦ absurd (clash (sym e ∙ (==_iff id k).1 (sym same)))
    | inr laid ↦ rw (lookup-insert_rect nodes id v k, e) laid
  ]
]

Laid-insert_rect :
    (nodes : List (ℕ × Rect)) (id : ℕ) (v : Rect) (k : ℕ)
    → Laid (insert_rect nodes id v) k
    → (k ≡ id) ⊎ Laid nodes k
Laid-insert_rect nodes id v k h = elim (Bool-cases (id == k)) [
  | inl e ↦ inl (sym ((==_iff id k).0 e))
  | inr e ↦ inr (simp (lookup-insert_rect nodes id v k, e) at h)
]

-- The predicate holds of the nodes that there are.
abbrev pub IfOk : (List (ℕ × Rect) → Type 0) → Result LayoutError (List (ℕ × Rect)) → Type 0
IfOk P (err e) = Unit
IfOk P (ok nodes) = P nodes

abbrev pub Grows : List (ℕ × Rect) → List (ℕ × Rect) → Type 0
Grows nodes more = (k : ℕ) → Laid nodes k → Laid more k

-- Among what a node gives, or else what one of some nodes gives.
abbrev pub AmongAny : (ℕ → Option (List ℕ)) → ℕ → List ℕ → Type 0
AmongAny collect k [] = ⊥
AmongAny collect k (id ∷ ids) = IfSome (Among k) (collect id) ⊎ AmongAny collect k ids

module _ (collect : ℕ → Option (List ℕ)) (k : ℕ) where
  both_parts-Among :
      (part rest : Option (List ℕ))
      → IfSome (Among k) part ⊎ IfSome (Among k) rest
      → IfSome (Among k) (both_parts part rest)
  both_parts-Among none rest h = tt
  both_parts-Among (some part) none h = tt
  both_parts-Among (some part) (some rest) (inl h) = Among-left k part rest h
  both_parts-Among (some part) (some rest) (inr h) = Among-right k part rest h

  collect_all-Among :
      (ids : List ℕ) → AmongAny collect k ids → IfSome (Among k) (collect_all collect ids)
  unfolding collect_all
  collect_all-Among [] h = absurd h
  collect_all-Among (id ∷ ids) (inl h) =
      both_parts-Among (collect id) (collect_all collect ids) (inl h)
  collect_all-Among (id ∷ ids) (inr h) =
      both_parts-Among (collect id) (collect_all collect ids) (inr (collect_all-Among ids h))

  insert_in_order-Among :
      (key : ℕ → ℤ) (id : ℕ) (ids : List ℕ)
      → AmongAny collect k (id ∷ ids)
      → AmongAny collect k (insert_in_order key id ids)
  unfolding insert_in_order
  insert_in_order-Among key id [] h = h
  insert_in_order-Among key id (j ∷ js) h = elim (Bool-cases (int_leb (key id) (key j))) [
    | inl e ↦ rw e h
    | inr e ↦ elim h [
      | inl here ↦ rw e (inr (insert_in_order-Among key id js (inl here)))
      | inr (inl next) ↦ rw e (inl next)
      | inr (inr there) ↦ rw e (inr (insert_in_order-Among key id js (inr there)))
    ]
  ]

  sort_by-Among :
      (key : ℕ → ℤ) (ids : List ℕ) → AmongAny collect k ids → AmongAny collect k (sort_by key ids)
  unfolding sort_by
  sort_by-Among key [] h = h
  sort_by-Among key (id ∷ ids) (inl h) = insert_in_order-Among key id (sort_by key ids) (inl h)
  sort_by-Among key (id ∷ ids) (inr h) =
      insert_in_order-Among key id (sort_by key ids) (inr (sort_by-Among key ids h))

  with_first-Among :
      (id : ℕ) (rest : Option (List ℕ))
      → (k ≡ id) ⊎ IfSome (Among k) rest
      → IfSome (Among k) (with_first id rest)
  with_first-Among id none h = tt
  with_first-Among id (some rest) (inl e) = inl e
  with_first-Among id (some rest) (inr h) = inr h

module _ {F : Type 0} (doc : ThtmlDocument (ComputedStyle F ℤ)) where
  -- A node that has a rectangle behind the call, and had none before it, is in what the nodes give
  -- for a map that has no fewer rectangles.
  abbrev pub Covered : ℕ → List ℕ → List (ℕ × Rect) → List (ℕ × Rect) → Type 0
  Covered fuel ids nodes more =
      (last : List (ℕ × Rect)) (k : ℕ)
      → Grows more last
      → Laid more k
      → Laid nodes k ⊎ AmongAny (collect_paint_order_recursive fuel (clear_dirty doc) last) k ids

  abbrev pub Flat : ℕ → List ℕ → List (ℕ × Rect) → List (ℕ × Rect) → Type 0
  Flat fuel ids nodes more = Grows nodes more × Covered fuel ids nodes more

  last-Flat :
      (fuel id : ℕ) (ids : List ℕ) (nodes more : List (ℕ × Rect))
      (rest : Result LayoutError (List (ℕ × Rect)))
      → Grows nodes more
      → Covered fuel (id ∷ []) nodes more
      → IfOk (Flat fuel ids more) rest
      → IfOk (Flat fuel (id ∷ ids) nodes) rest
  last-Flat fuel id ids nodes more (err e) grows here h = tt
  last-Flat fuel id ids nodes more (ok whole) grows here (grows', there) = (
    (λ k laid. grows' k (grows k laid)),
    (λ last k wide laid. elim (there last k wide laid) [
      | inr among ↦ inr (inr among)
      | inl before ↦ elim (here last k (λ j l. wide j (grows' j l)) before) [
        | inl old ↦ inl old
        | inr (inl among) ↦ inr (inl among)
        | inr (inr never) ↦ absurd never
      ]
    ]),
  )

  then-Flat :
      (fuel id : ℕ) (ids : List ℕ) (nodes : List (ℕ × Rect))
      (first : Result LayoutError (List (ℕ × Rect)))
      (rest : List (ℕ × Rect) → Result LayoutError (List (ℕ × Rect)))
      → IfOk (Flat fuel (id ∷ []) nodes) first
      → ((more : List (ℕ × Rect)) → IfOk (Flat fuel ids more) (rest more))
      → IfOk (Flat fuel (id ∷ ids) nodes) (elim first [ err e ↦ err e | ok more ↦ rest more ])
  then-Flat fuel id ids nodes (err e) rest h each = tt
  then-Flat fuel id ids nodes (ok more) rest (grows, here) each =
      last-Flat fuel id ids nodes more (rest more) grows here (each more)

  flatten_all-Flat :
      (fuel : ℕ) (flatten : ℕ → List (ℕ × Rect) → Result LayoutError (List (ℕ × Rect)))
      (ids : List ℕ) (nodes : List (ℕ × Rect))
      → ((id : ℕ) (nodes : List (ℕ × Rect)) → IfOk (Flat fuel (id ∷ []) nodes) (flatten id nodes))
      → IfOk (Flat fuel ids nodes) (flatten_all flatten ids nodes)
  unfolding flatten_all
  flatten_all-Flat fuel flatten [] nodes each = ((λ k h. h), (λ last k grows h. inl h))
  flatten_all-Flat fuel flatten (id ∷ ids) nodes each =
      then-Flat fuel id ids nodes (flatten id nodes) (flatten_all flatten ids) (each id nodes)
        (λ more. flatten_all-Flat fuel flatten ids more each)

  -- The node itself, and those that its children add.
  node-Flat :
      (fuel id : ℕ) (node : Node (ComputedStyle F ℤ)) (nodes : List (ℕ × Rect)) (v : Rect)
      (rest : Result LayoutError (List (ℕ × Rect)))
      → get doc.arena id ≡ some node
      → IfOk (Flat fuel node.children (insert_rect nodes id v)) rest
      → IfOk (Flat (suc fuel) (id ∷ []) nodes) rest
  unfolding collect_paint_order_recursive
  node-Flat fuel id node nodes v (err e) g h = tt
  node-Flat fuel id node nodes v (ok more) g (grows, there) = (
    (λ k laid. grows k (insert_rect-Laid nodes id v k (inr laid))),
    (λ last k wide laid.
        let (r, own) = wide id (grows id (insert_rect-Laid nodes id v id (inl refl))) in
        let collect = collect_paint_order_recursive fuel (clear_dirty doc) last in
        let given : (k ≡ id) ⊎ AmongAny collect k node.children
            → IfSome (Among k)
                (collect_paint_order_recursive (suc fuel) (clear_dirty doc) last id) =
          λ h.
            rw (collect_paint_order_recursive, own, g)
              (with_first-Among collect k id _ (elim h [
                | inl e ↦ inl e
                | inr among ↦ inr (
                    collect_all-Among collect k (sort_by (z_of (clear_dirty doc)) node.children)
                      (sort_by-Among collect k (z_of (clear_dirty doc)) node.children among))
              ])) in
        elim (there last k wide laid) [
          | inr among ↦ inr (inl (given (inr among)))
          | inl before ↦ elim (Laid-insert_rect nodes id v k before) [
            | inl e ↦ inr (inl (given (inl e)))
            | inr old ↦ inl old
          ]
        ]),
  )

  leaf-Flat :
      (fuel id : ℕ) (nodes : List (ℕ × Rect)) (v : Rect)
      → get doc.arena id ≡ none
      → Flat (suc fuel) (id ∷ []) nodes (insert_rect nodes id v)
  unfolding collect_paint_order_recursive
  leaf-Flat fuel id nodes v g = (
    (λ k laid. insert_rect-Laid nodes id v k (inr laid)),
    (λ last k wide laid.
        let (r, own) = wide id (insert_rect-Laid nodes id v id (inl refl)) in
        elim (Laid-insert_rect nodes id v k laid) [
          | inl e ↦ inr (inl (rw (collect_paint_order_recursive, own, g) (inl e)))
          | inr old ↦ inl old
        ]),
  )

  pub flatten-Flat :
      (taffy : ℕ → Option (Option Rect)) (fuel parent_x parent_y id : ℕ) (nodes : List (ℕ × Rect))
      → IfOk
          (Flat fuel (id ∷ []) nodes)
          (flatten_layout_recursive fuel doc taffy parent_x parent_y id nodes)
  unfolding flatten_layout_recursive
  flatten-Flat taffy zero px py id nodes = tt
  flatten-Flat taffy (suc fuel) px py id nodes = elim (Option-cases (taffy id)) [
    | inl hidden ↦ rw (flatten_layout_recursive, hidden) ((λ k h. h), (λ last k grows h. inl h))
    | inr (none, there) ↦ rw (flatten_layout_recursive, there) tt
    | inr (some rect, there) ↦ elim (Option-cases (get doc.arena id)) [
      | inl gone ↦
          rw (flatten_layout_recursive, there, gone)
            (leaf-Flat fuel id nodes (absolute_rect false px py rect) gone)
      | inr (node, g) ↦
          let abs = absolute_rect (is_fixed node) px py rect in
          rw (flatten_layout_recursive, there, g)
            (node-Flat fuel id node nodes abs _ g (
              flatten_all-Flat fuel (flatten_layout_recursive fuel doc taffy abs.x abs.y)
                node.children (insert_rect nodes id abs)
                (λ i m. flatten-Flat taffy fuel abs.x abs.y i m)))
    ]
  ]
