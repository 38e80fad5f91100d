-- ===== src/Document/Copies.antt =====
-- A clone of a subtree is the same tree in an arena of its own.
use oxiterm.Common.{
  ℕ, zero, suc, ◌+◌, ◌^◌, ◌≤◌, ◌<◌, ◌≡◌, ◌≢◌, refl, sym, ◌∙◌, subst, some, List, [], ◌∷◌, ◌++◌,
  arith,
}
use oxiterm.Common.Outcome.{Result, ok}
use oxiterm.Dom.{Node}
use oxiterm.Arena.{NodeArena, new, alloc, get}
use oxiterm.Arena.Updates.{
  Grown, get-lt, pushed, alloc-pushed, pushed-Grown, get-pushed_self, get-pushed_other,
}
use oxiterm.Document.{ThtmlDocument, append_child}
use oxiterm.Document.Clone.{CloneError, bare, copy_children, copy_node_recursive, clone_subtree}
use oxiterm.Document.Appended.{
  with_child, appended, append_child-live, get-appended_self, get-appended_other, appended-Grown,
}
use oxiterm.Document.Forest.{
  Forest, no_trees, tree, size, beside_all, FromOn, AreTrees, Keeps, AreNumbered, AreNumbered-Keeps,
  AreNumbered-beside, size-beside_all, beside_all_assoc, beside_all-none,
}

module _ {Style : Type 0} where
  node-copied :
      (fuel : ℕ) (source : NodeArena Style) (doc : ThtmlDocument Style) (id n : ℕ) (m : Node Style)
      (arena : NodeArena Style)
      → get source id ≡ some m
      → alloc doc.arena (bare m) ≡ some (n, arena)
      → copy_node_recursive (suc fuel) source doc id
        ≡ copy_children
            (copy_node_recursive fuel source)
            (record doc { arena = arena })
            n
            m.children
  unfolding copy_node_recursive
  node-copied fuel source doc id n m arena h e = rw (copy_node_recursive, h, e) refl

  child-copied :
      (copy : ThtmlDocument Style → ℕ → Result CloneError (ℕ × ThtmlDocument Style))
      (doc doc' doc'' : ThtmlDocument Style) (new_id child new_child : ℕ) (children : List ℕ)
      → copy doc child ≡ ok (new_child, doc')
      → append_child doc' new_id new_child ≡ ok doc''
      → copy_children copy doc new_id (child ∷ children) ≡ copy_children copy doc'' new_id children
  unfolding copy_children
  child-copied copy doc doc' doc'' new_id child new_child children h e =
      rw (copy_children, h, e) refl

  -- What the loop over the children of a node leaves, which has some copied children already.
  record Copied (copy : Result CloneError (ℕ × ThtmlDocument Style)) (a : NodeArena Style)
      (top n : ℕ) (node : Node Style) (copies : Forest Style) : Type 0 where
    doc : ThtmlDocument Style
    new_node : Node Style
    result : copy ≡ ok (top, doc)
    grown : Grown doc.arena n
    others : (j : ℕ) (m : Node Style) → top ≢ j → get a j ≡ some m → get doc.arena j ≡ some m
    holds : get doc.arena top ≡ some new_node
    same : bare new_node ≡ bare node
    below : AreNumbered doc.arena (suc top) new_node.children copies

  module _ (copy : Result CloneError (ℕ × ThtmlDocument Style)) (a : NodeArena Style) (top n k : ℕ)
      (node m : Node Style) (below : Forest Style)
      (c : Copied copy (pushed a (bare m)) n k (bare m) below) (g : Grown a n) (lt : top < n)
      (at : get a top ≡ some node) where
    -- The node above is where it was when a child is copied.
    above-kept : get c.doc.arena top ≡ some node
    above-kept =
        c.others top node (λ z. omega (arith, z, lt)) (get-pushed_other a (bare m) node top at)

    -- The other nodes are as they were when the child is appended.
    others-kept :
        (j : ℕ) (x : Node Style)
        → top ≢ j
        → get a j ≡ some x
        → get (appended c.doc top n).arena j ≡ some x
    others-kept j x ne h =
        get-appended_other c.doc top n j node above-kept ne
        ∙ c.others j x (λ z. omega (arith, z, get-lt a j x h, g.size))
            (get-pushed_other a (bare m) x j h)

    -- The trees below the node above, with the new one last.
    child-joined :
        (x : Node Style) (done : Forest Style)
        → bare m ≡ x
        → n ≡ suc top + size done
        → AreNumbered a (suc top) node.children done
        → AreNumbered
            (appended c.doc top n).arena
            (suc top)
            (node.children ++ n ∷ [])
            (beside_all done (tree x below no_trees))
    unfolding AreNumbered Keeps
    child-joined x done e next kids =
        let doc2 = appended c.doc top n in
        let below2 =
          AreNumbered-Keeps below c.doc.arena doc2.arena (suc n) c.new_node.children
            (λ j x i h.
              get-appended_other c.doc top n j node above-kept (λ z. omega (arith, z, i, lt)) ∙ h)
            c.below in
        let copied_tree : AreNumbered doc2.arena n (n ∷ []) (tree x below no_trees) = (
          refl,
          (
            c.new_node,
            get-appended_other c.doc top n n node above-kept (λ z. omega (arith, z, lt)) ∙ c.holds,
            c.same ∙ e,
            below2,
          ),
          tt,
        ) in
        AreNumbered-beside done doc2.arena (suc top) node.children (n ∷ []) _
          (AreNumbered-Keeps done a doc2.arena (suc top) node.children
            (λ j x i h. others-kept j x (λ z. omega (arith, z, i)) h) kids)
          (subst (λ k. AreNumbered doc2.arena k (n ∷ []) (tree x below no_trees)) next copied_tree)

  children-Copied :
      (trees : Forest Style) (fuel : ℕ) (source : NodeArena Style) (ids : List ℕ)
      (doc : ThtmlDocument Style) (n top : ℕ) (node : Node Style) (done : Forest Style)
      → AreTrees source (FromOn 0) ids trees
      → size trees ≤ fuel
      → Grown doc.arena n
      → n + size trees ≤ 2 ^ 32
      → top < n
      → get doc.arena top ≡ some node
      → n ≡ suc top + size done
      → AreNumbered doc.arena (suc top) node.children done
      → Copied
          (copy_children (copy_node_recursive fuel source) doc top ids)
          doc.arena
          top
          (n + size trees)
          node
          (beside_all done trees)
  unfolding AreTrees AreNumbered size Keeps beside_all copy_children
  children-Copied no_trees fuel source [] doc n top node done h le g room lt at next kids = record {
    doc = doc;
    new_node = node;
    result = refl;
    grown = record { no_free = g.no_free; size = omega (arith, g.size) };
    others = λ j m ne h. h;
    holds = at;
    same = refl;
    below = subst (AreNumbered doc.arena (suc top) node.children) (sym (beside_all-none done)) kids;
  }
  children-Copied no_trees fuel source (id ∷ ids) doc n top node done h le g room lt at next kids =
      absurd h
  children-Copied (tree x below beside) fuel source [] doc n top node done h le g room lt at next
        kids =
      absurd h
  children-Copied (tree x below beside) zero source (id ∷ ids) doc n top node done h le g room lt at
        next kids =
      absurd (omega (arith, le))
  children-Copied (tree x below beside) (suc fuel) source (id ∷ ids) doc n top node done
        (_, (m, found, e, ts), rest) le g room lt at next kids =
      let c =
        children-Copied below fuel source m.children
          (record doc { arena = pushed doc.arena (bare m) }) (suc n) n (bare m) no_trees ts
          (omega (arith, le)) (pushed-Grown doc.arena n (bare m) g) (omega (arith, room))
          (omega arith) (get-pushed_self doc.arena n (bare m) g) (omega arith) tt in
      let at1 = above-kept _ doc.arena top n _ node m below c g lt at in
      let doc2 = appended c.doc top n in
      let r =
        children-Copied beside (suc fuel) source ids doc2 (suc n + size below) top
          (with_child n node) (beside_all done (tree x below no_trees)) rest (omega (arith, le))
          (appended-Grown c.doc top n (suc n + size below) node at1 c.grown) (omega (arith, room))
          (omega (arith, lt)) (get-appended_self c.doc top n node at1)
          (omega (arith, next, size-beside_all done (tree x below no_trees)))
          (child-joined _ doc.arena top n _ node m below c g lt at x done e next kids) in
      record {
        doc = r.doc;
        new_node = r.new_node;
        result =
            child-copied (copy_node_recursive (suc fuel) source) doc c.doc doc2 top id n ids
              (node-copied fuel source doc id n m (pushed doc.arena (bare m)) found
                  (alloc-pushed doc.arena n (bare m) g (omega (arith, room)))
                ∙ c.result)
              (append_child-live c.doc top n node at1)
            ∙ r.result;
        grown = record { no_free = r.grown.no_free; size = omega (arith, r.grown.size) };
        others = λ j y ne h.
            r.others j y ne (others-kept _ doc.arena top n _ node m below c g lt at j y ne h);
        holds = r.holds;
        same = r.same;
        below =
            subst (AreNumbered r.doc.arena (suc top) r.new_node.children)
              (beside_all_assoc done (tree x below no_trees) beside) r.below;
      }

  -- If the nodes that are reached from an id are a finite tree, in which a node that is reached twice
  -- counts twice, cloning the subtree gives a document with the same tree at its root. Each node of
  -- the copy has as its id its number in the tree, a node before those below it and those before the
  -- ones beside it, and the arena has as many slots as the tree has nodes and no free one: it holds
  -- the nodes of the tree, each reached once, and no others. The stack must be as deep as the tree
  -- has nodes, which are 2^32 at most.
  pub clone_subtree-AreNumbered :
      (doc : ThtmlDocument Style) (root_id fuel : ℕ) (node : Node Style) (below : Forest Style)
      → AreTrees doc.arena (FromOn 0) (root_id ∷ []) (tree node below no_trees)
      → size (tree node below no_trees) ≤ fuel
      → size (tree node below no_trees) ≤ 2 ^ 32
      → (copy : ThtmlDocument Style) × (clone_subtree fuel doc root_id ≡ ok copy)
        × AreNumbered copy.arena 0 (copy.root ∷ []) (tree node below no_trees)
        × Grown copy.arena (size (tree node below no_trees))
  unfolding clone_subtree AreTrees AreNumbered size beside_all
  clone_subtree-AreNumbered doc root_id zero node below h le room = absurd (omega (arith, le))
  clone_subtree-AreNumbered doc root_id (suc fuel) node below (_, (m, found, e, ts), _) le room =
      let empty : ThtmlDocument Style = record { arena = new; root = 0; dirty_nodes = [] } in
      let g : Grown empty.arena 0 = record { no_free = refl; size = refl } in
      let c =
        children-Copied below fuel doc.arena m.children
          (record empty { arena = pushed new (bare m) }) 1 0 (bare m) no_trees ts
          (omega (arith, le)) (pushed-Grown new 0 (bare m) g) (omega (arith, room)) (omega arith)
          (get-pushed_self new 0 (bare m) g) (omega arith) tt in
      let result =
        node-copied fuel doc.arena empty root_id 0 m (pushed new (bare m)) found
          (alloc-pushed new 0 (bare m) g (omega arith))
        ∙ c.result in
      (
        record c.doc { root = 0 },
        rw (clone_subtree, result) refl,
        (refl, (c.new_node, c.holds, c.same ∙ e, c.below), tt),
        record { no_free = c.grown.no_free; size = omega (arith, c.grown.size) },
      )
