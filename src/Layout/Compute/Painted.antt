-- ===== src/Layout/Compute/Painted.antt =====
-- The paint order that `collect_paint_order_recursive` of oxiterm-renderer/src/layout/engine.rs
-- makes: what stands in it, and what stands behind a node.
use oxiterm.Common.{
  ℕ, zero, suc, ◌≡◌, refl, sym, ◌∙◌, subst, Option, none, some, List, [], ◌∷◌, ◌++◌, All, lookup,
  Bool-cases, Option-cases, ◌⊎◌, inl, inr,
}
use oxiterm.Common.Int.{ℤ}
use oxiterm.Style.Computed.{ComputedStyle}
use oxiterm.Dom.{Node}
use oxiterm.Arena.{get}
use oxiterm.Document.{ThtmlDocument}
use oxiterm.Layout.{Rect}
use oxiterm.Layout.Compute.{
  int_leb, insert_in_order, sort_by, both_parts, with_first, collect_all, z_of,
  collect_paint_order_recursive,
}

abbrev pub Among : ℕ → List ℕ → Type 0
Among k [] = ⊥
Among k (i ∷ ids) = (k ≡ i) ⊎ Among k ids

pub Among-left : (k : ℕ) (xs ys : List ℕ) → Among k xs → Among k (xs ++ ys)
Among-left k [] ys h = absurd h
Among-left k (x ∷ xs) ys (inl e) = inl e
Among-left k (x ∷ xs) ys (inr h) = inr (Among-left k xs ys h)

pub Among-right : (k : ℕ) (xs ys : List ℕ) → Among k ys → Among k (xs ++ ys)
Among-right k [] ys h = h
Among-right k (x ∷ xs) ys h = inr (Among-right k xs ys h)

-- The node has a rectangle.
abbrev pub Laid : List (ℕ × Rect) → ℕ → Type 0
Laid nodes k = (r : Rect) × (lookup nodes k ≡ some r)

-- The predicate holds of what there is.
abbrev pub IfSome : (List ℕ → Type 0) → Option (List ℕ) → Type 0
IfSome P none = Unit
IfSome P (some order) = P order

module _ (P : ℕ → Type 0) (key : ℕ → ℤ) where
  insert_in_order-All : (i : ℕ) (ids : List ℕ) → All P (insert_in_order key i ids) → P i × All P ids
  unfolding insert_in_order
  insert_in_order-All i [] h = h
  insert_in_order-All i (j ∷ js) h = elim (Bool-cases (int_leb (key i) (key j))) [
    | inl e ↦ simp e at h
    | inr e ↦
        let k : All P (j ∷ insert_in_order key i js) = simp e at h in
        let (here, there) = insert_in_order-All i js k.1 in (here, (k.0, there))
  ]

  pub sort_by-All : (ids : List ℕ) → All P (sort_by key ids) → All P ids
  unfolding sort_by
  sort_by-All [] h = h
  sort_by-All (i ∷ ids) h =
      let (here, there) = insert_in_order-All i (sort_by key ids) h in (here, sort_by-All ids there)

module _ {F : Type 0} (doc : ThtmlDocument (ComputedStyle F ℤ)) (nodes : List (ℕ × Rect)) where
  -- Behind each node stand its children that have rectangles.
  abbrev pub ChildrenBehind : List ℕ → Type 0
  ChildrenBehind [] = Unit
  ChildrenBehind (id ∷ ids) =
      ((m : Node (ComputedStyle F ℤ))
        → get doc.arena id ≡ some m
        → All (λ c. Laid nodes c → Among c ids) m.children)
      × ChildrenBehind ids

  pub ChildrenBehind-at :
      (below : List ℕ) (id : ℕ) (above : List ℕ) (m : Node (ComputedStyle F ℤ))
      → ChildrenBehind (below ++ id ∷ above)
      → get doc.arena id ≡ some m
      → All (λ c. Laid nodes c → Among c above) m.children
  ChildrenBehind-at [] id above m h g = h.0 m g
  ChildrenBehind-at (i ∷ below) id above m h g = ChildrenBehind-at below id above m h.1 g

  Among-more :
      (cs xs ys : List ℕ)
      → All (λ c. Laid nodes c → Among c xs) cs
      → All (λ c. Laid nodes c → Among c (xs ++ ys)) cs
  Among-more [] xs ys h = tt
  Among-more (c ∷ cs) xs ys h = (λ l. Among-left c xs ys (h.0 l), Among-more cs xs ys h.1)

  Among-behind :
      (cs xs ys : List ℕ)
      → All (λ c. Laid nodes c → Among c ys) cs
      → All (λ c. Laid nodes c → Among c (xs ++ ys)) cs
  Among-behind [] xs ys h = tt
  Among-behind (c ∷ cs) xs ys h = (λ l. Among-right c xs ys (h.0 l), Among-behind cs xs ys h.1)

  ChildrenBehind-append :
      (xs ys : List ℕ) → ChildrenBehind xs → ChildrenBehind ys → ChildrenBehind (xs ++ ys)
  ChildrenBehind-append [] ys h k = k
  ChildrenBehind-append (x ∷ xs) ys h k =
      (λ m g. Among-more m.children xs ys (h.0 m g), ChildrenBehind-append xs ys h.1 k)

  abbrev pub AllPainted : List ℕ → List ℕ → Type 0
  AllPainted ids order = ChildrenBehind order × All (λ c. Laid nodes c → Among c order) ids

  both_parts-painted :
      (id : ℕ) (ids : List ℕ) (part rest : Option (List ℕ))
      → IfSome (AllPainted (id ∷ [])) part
      → IfSome (AllPainted ids) rest
      → IfSome (AllPainted (id ∷ ids)) (both_parts part rest)
  both_parts-painted id ids none rest h k = tt
  both_parts-painted id ids (some part) none h k = tt
  both_parts-painted id ids (some part) (some rest) (behind, here) (others, there) = (
    ChildrenBehind-append part rest behind others,
    (λ l. Among-left id part rest (here.0 l), Among-behind ids part rest there),
  )

  with_first-painted :
      (id : ℕ) (node : Node (ComputedStyle F ℤ)) (rest : Option (List ℕ))
      → get doc.arena id ≡ some node
      → IfSome (AllPainted (sort_by (z_of doc) node.children)) rest
      → IfSome (AllPainted (id ∷ [])) (with_first id rest)
  with_first-painted id node none g h = tt
  with_first-painted id node (some rest) g (behind, there) =
      let sorted = sort_by-All (λ c. Laid nodes c → Among c rest) (z_of doc) node.children there in
      let children = λ (m : Node (ComputedStyle F ℤ)) (f : get doc.arena id ≡ some m).
        let same : node ≡ m = cc in
        subst (λ n. All (λ c. Laid nodes c → Among c rest) n.children) same sorted in
      ((children, behind), (λ l. inl refl, tt))

  collect_all-painted :
      (collect : ℕ → Option (List ℕ)) (ids : List ℕ)
      → ((id : ℕ) → IfSome (AllPainted (id ∷ [])) (collect id))
      → IfSome (AllPainted ids) (collect_all collect ids)
  unfolding collect_all
  collect_all-painted collect [] each = (tt, tt)
  collect_all-painted collect (id ∷ ids) each =
      both_parts-painted id ids (collect id) (collect_all collect ids) (each id)
        (collect_all-painted collect ids each)

  -- In the paint order that a node gives, its laid out descendants stand behind their parents.
  pub collect-painted :
      (fuel id : ℕ)
      → IfSome (AllPainted (id ∷ [])) (collect_paint_order_recursive fuel doc nodes id)
  unfolding collect_paint_order_recursive
  collect-painted zero id = tt
  collect-painted (suc fuel) id = elim (Option-cases (lookup nodes id)) [
    | inl missing ↦
        rw (collect_paint_order_recursive, missing)
          (tt, (λ l. let e : none ≡ some l.0 = sym missing ∙ l.1 in cc, tt))
    | inr (r, there) ↦ elim (Option-cases (get doc.arena id)) [
      | inl gone ↦
          rw (collect_paint_order_recursive, there, gone)
            ((λ m g. let e : none ≡ some m = sym gone ∙ g in cc, tt), (λ l. inl refl, tt))
      | inr (node, g) ↦
          rw (collect_paint_order_recursive, there, g)
            (with_first-painted id node _ g (
              collect_all-painted (collect_paint_order_recursive fuel doc nodes)
                (sort_by (z_of doc) node.children) (λ i. collect-painted fuel i)))
    ]
  ]
