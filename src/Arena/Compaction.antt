-- ===== src/Arena/Compaction.antt =====
-- Compaction keeps the live nodes, in their order, and renames what points to them.
use oxiterm.Common.{
  ℕ, zero, suc, ◌+◌, ◌<◌, ◌≡◌, refl, ap, Option, none, some, List, [], ◌∷◌, length, arith, inl, inr,
  lookup, get_elem?, get_elem?-in, Option-cases,
}
use mathlib.Core.Option
use oxiterm.Dom.{Node}
use oxiterm.Arena.{
  NodeArena, flat, get, compact, remap_from, live, rename, rename_all, rename_children,
}
use oxiterm.Arena.Slots.{IsValid, count_dead}

module _ {Style : Type 0} where
  -- How many live nodes stand before a slot.
  pub rank : List (Option (Node Style)) → ℕ → ℕ
  rank [] i = 0
  rank (slot ∷ slots) zero = 0
  rank (none ∷ slots) (suc i) = rank slots i
  rank (some x ∷ slots) (suc i) = suc (rank slots i)

  lookup-remap_from :
      (slots : List (Option (Node Style))) (old_idx new_idx i : ℕ) {x : Node Style}
      → get_elem? slots i ≡ some (some x)
      → lookup (remap_from old_idx new_idx slots) (old_idx + i) ≡ some (new_idx + rank slots i)
  unfolding remap_from rank
  lookup-remap_from [] o n i h = cc
  lookup-remap_from (none ∷ slots) o n zero h = cc
  lookup-remap_from (some y ∷ slots) o n zero h = ground arith
  lookup-remap_from (none ∷ slots) o n (suc i) {x} h =
      ground (arith, lookup-remap_from slots (suc o) n i h)
  lookup-remap_from (some y ∷ slots) o n (suc i) {x} h =
      ground (arith, lookup-remap_from slots (suc o) (suc n) i h)

  lookup-remap_below :
      (slots : List (Option (Node Style))) (old_idx new_idx k : ℕ)
      → k < old_idx
      → lookup (remap_from old_idx new_idx slots) k ≡ none
  unfolding remap_from
  lookup-remap_below [] o n k h = refl
  lookup-remap_below (none ∷ slots) o n k h = lookup-remap_below slots (suc o) n k (omega arith)
  lookup-remap_below (some y ∷ slots) o n k h =
      ground (arith, lookup-remap_below slots (suc o) (suc n) k)

  lookup-remap_dead :
      (slots : List (Option (Node Style))) (old_idx new_idx i : ℕ)
      → flat (get_elem? slots i) ≡ none
      → lookup (remap_from old_idx new_idx slots) (old_idx + i) ≡ none
  unfolding remap_from
  lookup-remap_dead [] o n i h = refl
  lookup-remap_dead (none ∷ slots) o n zero h =
      lookup-remap_below slots (suc o) n (o + 0) (omega arith)
  lookup-remap_dead (some y ∷ slots) o n zero h = cc
  lookup-remap_dead (none ∷ slots) o n (suc i) h =
      ground (arith, lookup-remap_dead slots (suc o) n i h)
  lookup-remap_dead (some y ∷ slots) o n (suc i) h =
      ground (arith, lookup-remap_dead slots (suc o) (suc n) i h)

  get_elem?-live :
      (slots : List (Option (Node Style))) (i : ℕ) {x : Node Style}
      → get_elem? slots i ≡ some (some x)
      → get_elem? (live slots) (rank slots i) ≡ some x
  unfolding live rank
  get_elem?-live [] i h = cc
  get_elem?-live (none ∷ slots) zero h = cc
  get_elem?-live (some y ∷ slots) zero h = cc
  get_elem?-live (none ∷ slots) (suc i) h = get_elem?-live slots i h
  get_elem?-live (some y ∷ slots) (suc i) h = get_elem?-live slots i h

  get_elem?-rename_all :
      (remap : List (ℕ × ℕ)) (nodes : List (Node Style)) (j : ℕ) {x : Node Style}
      → get_elem? nodes j ≡ some x
      → get_elem? (rename_all remap nodes) j ≡ some (some (rename remap x))
  unfolding rename_all
  get_elem?-rename_all remap [] j h = cc
  get_elem?-rename_all remap (y ∷ nodes) zero h =
      ap (λ o. Option.map (λ n. some (rename remap n)) o) h
  get_elem?-rename_all remap (y ∷ nodes) (suc j) h = get_elem?-rename_all remap nodes j h

  rank-lt :
      (slots : List (Option (Node Style))) (i j : ℕ) {x : Node Style}
      → get_elem? slots i ≡ some (some x)
      → i < j
      → rank slots i < rank slots j
  unfolding rank
  rank-lt [] i j h lt = cc
  rank-lt (s ∷ slots) i zero h lt = absurd (omega arith)
  rank-lt (none ∷ slots) zero (suc j) h lt = cc
  rank-lt (some y ∷ slots) zero (suc j) h lt = omega arith
  rank-lt (none ∷ slots) (suc i) (suc j) h lt = rank-lt slots i j h (omega arith)
  rank-lt (some y ∷ slots) (suc i) (suc j) h lt = omega (arith, rank-lt slots i j h (omega arith))

  lookup-remap :
      (slots : List (Option (Node Style))) (i : ℕ) {x : Node Style}
      → get_elem? slots i ≡ some (some x)
      → lookup (remap_from 0 0 slots) i ≡ some (rank slots i)
  lookup-remap slots i h = ground (arith, lookup-remap_from slots 0 0 i h)

  lookup-remap_none :
      (slots : List (Option (Node Style))) (i : ℕ)
      → flat (get_elem? slots i) ≡ none
      → lookup (remap_from 0 0 slots) i ≡ none
  lookup-remap_none slots i h = ground (arith, lookup-remap_dead slots 0 0 i h)

  flat-some :
      (slot : Option (Option (Node Style))) (node : Node Style)
      → flat slot ≡ some node
      → slot ≡ some (some node)
  flat-some none node h = cc
  flat-some (some none) node h = cc
  flat-some (some (some n)) node h = ap some h

  -- Compaction keeps every live node: it stands at the new id that the returned map gives for the old
  -- one, as it was but with its children's ids renamed by that map. Dead ids have no new id.
  pub compact-keeps :
      (a : NodeArena Style) (id : ℕ)
      → ((node : Node Style)
          → get a id ≡ some node
          → (new_id : ℕ) × (lookup (compact a).1 id ≡ some new_id)
            × (get (compact a).0 new_id ≡ some (rename (compact a).1 node)))
        × (get a id ≡ none → lookup (compact a).1 id ≡ none)
  unfolding compact get
  compact-keeps a id = (
    (λ node h.
        let e = flat-some (get_elem? a.nodes id) node h in
        (
          rank a.nodes id,
          lookup-remap a.nodes id e,
          ap flat (
              get_elem?-rename_all (remap_from 0 0 a.nodes) (live a.nodes) (rank a.nodes id)
                (get_elem?-live a.nodes id e)),
        )),
    lookup-remap_none a.nodes id,
  )

  count_dead-rename_all :
      (remap : List (ℕ × ℕ)) (nodes : List (Node Style)) → count_dead (rename_all remap nodes) ≡ 0
  unfolding rename_all count_dead
  count_dead-rename_all remap [] = refl
  count_dead-rename_all remap (x ∷ nodes) = count_dead-rename_all remap nodes

  length-rename_all :
      (remap : List (ℕ × ℕ)) (nodes : List (Node Style))
      → length (rename_all remap nodes) ≡ length nodes
  unfolding rename_all
  length-rename_all remap [] = refl
  length-rename_all remap (x ∷ nodes) = ap suc (length-rename_all remap nodes)

  length-live :
      (slots : List (Option (Node Style))) → length (live slots) + count_dead slots ≡ length slots
  unfolding live count_dead
  length-live [] = refl
  length-live (none ∷ slots) = omega (arith, length-live slots)
  length-live (some x ∷ slots) = omega (arith, length-live slots)

  -- A valid arena is valid when compacted, holds no dead slot, and has as many slots as there were
  -- live nodes: as many as before less the dead ones.
  compact-IsValid :
      (a : NodeArena Style)
      → IsValid a
      → IsValid (compact a).0
        × (count_dead (compact a).0.nodes ≡ 0)
        × (length (compact a).0.nodes + count_dead a.nodes ≡ length a.nodes)
  unfolding compact
  compact-IsValid a v =
      let remap = remap_from 0 0 a.nodes in
      let dead = count_dead-rename_all remap (live a.nodes) in
      let size : length (rename_all remap (live a.nodes)) + count_dead a.nodes ≡ length a.nodes =
        omega (arith, length-rename_all remap (live a.nodes), length-live a.nodes) in
      (
        record {
          free_dead = tt;
          distinct = tt;
          all_dead = omega (arith, dead);
          small = omega (arith, v.small, size);
        },
        dead,
        size,
      )

  -- Compaction does not repair a child id whose node was removed: the id stays in the list of
  -- children, and if it is below the number of live nodes it then names a live node.
  pub compact-dangling :
      (a : NodeArena Style) (c : ℕ) (children : List ℕ)
      → get a c ≡ none
      → c < length (live a.nodes)
      → (rename_children (compact a).1 (c ∷ children) ≡ c ∷ rename_children (compact a).1 children)
        × (node : Node Style) × (get (compact a).0 c ≡ some node)
  unfolding compact get rename_children
  compact-dangling a c children h lt =
      let remap = remap_from 0 0 a.nodes in
      let (node, e) = get_elem?-in (live a.nodes) c lt in
      (
        ground (arith, lookup-remap_none a.nodes c h),
        rename remap node,
        ap flat (get_elem?-rename_all remap (live a.nodes) c e),
      )

  -- The new ids stand in the order of the old ones, so no two nodes share one.
  compact-order :
      (a : NodeArena Style) (i j new_i new_j : ℕ)
      → lookup (compact a).1 i ≡ some new_i
      → lookup (compact a).1 j ≡ some new_j
      → i < j
      → new_i < new_j
  unfolding compact
  compact-order a i j new_i new_j hi hj lt = elim (Option-cases (flat (get_elem? a.nodes i))) [
    | inl dead ↦ cc (lookup-remap_none a.nodes i dead)
    | inr (x, e) ↦ elim (Option-cases (flat (get_elem? a.nodes j))) [
      | inl dead ↦ cc (lookup-remap_none a.nodes j dead)
      | inr (y, f) ↦
          let ei = flat-some (get_elem? a.nodes i) x e in
          let ej = flat-some (get_elem? a.nodes j) y f in
          ground
            (arith, lookup-remap a.nodes i ei, lookup-remap a.nodes j ej, rank-lt a.nodes i j ei lt)
    ]
  ]
