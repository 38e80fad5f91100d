-- ===== src/Expand/Rounds.antt =====
-- The loops over the templates and the items: the copies stand behind what the node had.
use oxiterm.Common.{
  ℕ, zero, suc, ◌+◌, ◌*◌, ◌^◌, ◌≤◌, ◌<◌, ◌≡◌, ◌≢◌, refl, sym, ap, ◌∙◌, subst, true, some, List, [],
  ◌∷◌, ◌++◌, append_assoc, length, arith,
}
use oxiterm.Common.Outcome.{Result, ok}
use oxiterm.Dom.{Text, Node}
use oxiterm.Arena.{get, update}
use oxiterm.Arena.Updates.{Grown, get-lt, update-Grown, get-update_self, get-update_other}
use oxiterm.Document.{ThtmlDocument}
use oxiterm.Document.Forest.{
  Forest, no_trees, tree, size, beside_all, beside_all_assoc, beside_all-none, FromOn, AreTrees,
  Keeps, AreTrees-Keeps, AreTrees-weaken, AreTrees-beside,
}
use oxiterm.Expand.{
  ExpandError, is_for, push_child, push_clone, expand_item, expand_items, clone_node_replacing_item,
}
use oxiterm.Expand.Filled.{filled, filled_all}
use oxiterm.Expand.Clones.{Cloned, tree-Cloned}

-- The ids of the other nodes.
abbrev pub OtherThan : ℕ → ℕ → Type 0
OtherThan for_id id = for_id ≢ id

-- The children of the `for` node are its templates and some copies.
pub record Holds {Style : Type 0} (doc : ThtmlDocument Style) (for_id : ℕ) (ids : List ℕ)
    (templates copies : Forest Style) (n : ℕ) : Type 0 where
  pub node : Node Style
  pub behind : List ℕ
  pub at : get doc.arena for_id ≡ some node
  pub loops : is_for node.tag ≡ true
  pub children : node.children ≡ ids ++ behind
  pub grown : Grown doc.arena n
  pub templates_stand : AreTrees doc.arena (OtherThan for_id) ids templates
  pub copies_stand : AreTrees doc.arena (OtherThan for_id) behind copies

-- What a loop gives.
pub record Leaves {Style : Type 0} (loop : Result ExpandError (ThtmlDocument Style)) (for_id : ℕ)
    (ids : List ℕ) (templates copies : Forest Style) (n : ℕ) : Type 0 where
  pub doc : ThtmlDocument Style
  pub result : loop ≡ ok doc
  pub holds : Holds doc for_id ids templates copies n

module _ {Style : Type 0} (for_id : ℕ) (ids : List ℕ) (templates : Forest Style) where
  -- The document with one more child of the `for` node.
  abbrev with_clone : ThtmlDocument Style → ℕ → ThtmlDocument Style
  with_clone doc new_id = record doc { arena = update doc.arena for_id (push_child new_id) }

  push_clone-live :
      (doc : ThtmlDocument Style) (new_id : ℕ) (node : Node Style)
      → get doc.arena for_id ≡ some node
      → push_clone doc for_id new_id ≡ ok (with_clone doc new_id)
  unfolding push_clone
  push_clone-live doc new_id node h = rw (push_clone, h) refl

  with_clone-Keeps :
      (doc : ThtmlDocument Style) (new_id : ℕ) (node : Node Style)
      → get doc.arena for_id ≡ some node
      → Keeps (OtherThan for_id) doc.arena (with_clone doc new_id).arena
  unfolding Keeps
  with_clone-Keeps doc new_id node at j m ne i =
      get-update_other doc.arena for_id j node (push_child new_id) at ne ∙ i

  -- A tree cloned and pushed stands behind the other copies.
  pushed-Holds :
      {copy : Result ExpandError (ℕ × ThtmlDocument Style)} {doc : ThtmlDocument Style} {n k : ℕ}
      {copies t : Forest Style}
      → Holds doc for_id ids templates copies n
      → (c : Cloned copy doc.arena n k t)
      → Holds (with_clone c.doc n) for_id ids templates (beside_all copies t) k
  unfolding Keeps
  pushed-Holds {doc} {n} {k} {copies} {t} h c =
      let at : get c.doc.arena for_id ≡ some h.node = c.keeps for_id h.node tt h.at in
      let lt : for_id < n = omega (arith, get-lt doc.arena for_id h.node h.at, h.grown.size) in
      let first : Keeps (OtherThan for_id) doc.arena c.doc.arena = λ j m _ i. c.keeps j m tt i in
      let second = with_clone-Keeps c.doc n h.node at in
      let both : Keeps (OtherThan for_id) doc.arena (with_clone c.doc n).arena =
        λ j m ne i. second j m ne (first j m ne i) in
      record {
        node = push_child n h.node;
        behind = h.behind ++ n ∷ [];
        at = get-update_self c.doc.arena for_id h.node (push_child n) at;
        loops = h.loops;
        children = ap (λ l. l ++ n ∷ []) h.children ∙ append_assoc ids h.behind (n ∷ []);
        grown = update-Grown c.doc.arena for_id k h.node (push_child n) at c.grown;
        templates_stand =
            AreTrees-Keeps templates doc.arena _ (OtherThan for_id) ids both h.templates_stand;
        copies_stand =
            AreTrees-beside copies _ (OtherThan for_id) h.behind (n ∷ []) t
              (AreTrees-Keeps copies doc.arena _ (OtherThan for_id) h.behind both h.copies_stand)
              (AreTrees-Keeps t c.doc.arena _ (OtherThan for_id) (n ∷ []) second (
                AreTrees-weaken t c.doc.arena (FromOn n) (OtherThan for_id) (n ∷ [])
                  (λ i le p. omega (arith, le, p, lt)) c.stand));
      }

  module _ (style : Style) (item : Text) where
    item-expanded :
        (fuel : ℕ) (doc doc' : ThtmlDocument Style) (id n : ℕ) (rest : List ℕ) (node : Node Style)
        → clone_node_replacing_item style fuel item doc id ≡ ok (n, doc')
        → get doc'.arena for_id ≡ some node
        → expand_item (clone_node_replacing_item style fuel item) for_id doc (id ∷ rest)
          ≡ expand_item (clone_node_replacing_item style fuel item) for_id (with_clone doc' n) rest
    unfolding expand_item
    item-expanded fuel doc doc' id n rest node h at =
        rw (expand_item, h, push_clone-live doc' n node at) refl

    -- The inner loop, over some of the templates.
    item-Leaves :
        (trees : Forest Style) (fuel : ℕ) (doc : ThtmlDocument Style) (rest : List ℕ) (n : ℕ)
        (copies : Forest Style)
        → AreTrees doc.arena (OtherThan for_id) rest trees
        → size trees ≤ fuel
        → n + size trees ≤ 2 ^ 32
        → Holds doc for_id ids templates copies n
        → Leaves
            (expand_item (clone_node_replacing_item style fuel item) for_id doc rest)
            for_id
            ids
            templates
            (beside_all copies (filled style item trees))
            (n + size trees)
    unfolding AreTrees size filled expand_item beside_all Keeps
    item-Leaves no_trees fuel doc [] n copies t le room h = record {
      doc = doc;
      result = refl;
      holds =
          let e : n ≡ n + 0 = omega arith in
          subst (λ k. Holds doc for_id ids templates (beside_all copies no_trees) k) e
            (subst (λ c. Holds doc for_id ids templates c n) (sym (beside_all-none copies)) h);
    }
    item-Leaves no_trees fuel doc (id ∷ rest) n copies t le room h = absurd t
    item-Leaves (tree x below beside) fuel doc [] n copies t le room h = absurd t
    item-Leaves (tree x below beside) zero doc (id ∷ rest) n copies t le room h =
        absurd (omega (arith, le))
    item-Leaves (tree x below beside) (suc fuel) doc (id ∷ rest) n copies
          (p, (m, found, e, ts), others) le room h =
        let c =
          tree-Cloned style item x below (OtherThan for_id) fuel doc id n m found e ts
            (omega (arith, le)) h.grown (omega (arith, room)) in
        let here = pushed-Holds h c in
        let t1 = filled style item (tree x below no_trees) in
        let r =
          item-Leaves beside (suc fuel) (with_clone c.doc n) rest (suc n + size below)
            (beside_all copies t1)
            (AreTrees-Keeps beside doc.arena (with_clone c.doc n).arena (OtherThan for_id) rest
              (λ j z ne i.
                with_clone-Keeps c.doc n h.node (c.keeps for_id h.node tt h.at) j z ne
                  (c.keeps j z tt i))
              others)
            (omega (arith, le)) (omega (arith, room)) here in
        let k : suc n + size below + size beside ≡ n + size (tree x below beside) = omega arith in
        record {
          doc = r.doc;
          result =
              item-expanded (suc fuel) doc c.doc id n rest h.node c.result
                (c.keeps for_id h.node tt h.at)
              ∙ r.result;
          holds =
              subst
                (λ z.
                  Holds r.doc for_id ids templates
                    (beside_all copies (filled style item (tree x below beside))) z)
                k
                (subst (λ z. Holds r.doc for_id ids templates z (suc n + size below + size beside))
                  (beside_all_assoc copies t1 (filled style item beside)) r.holds);
        }

  module _ (style : Style) (fuel : ℕ) where
    items-expanded :
        (item : Text) (items : List Text) (doc doc' : ThtmlDocument Style)
        → expand_item (clone_node_replacing_item style fuel item) for_id doc ids ≡ ok doc'
        → expand_items style fuel for_id ids doc (item ∷ items)
          ≡ expand_items style fuel for_id ids doc' items
    unfolding expand_items
    items-expanded item items doc doc' h = rw (expand_items, h) refl

    -- The outer loop.
    pub items-Leaves :
        (items : List Text) (doc : ThtmlDocument Style) (n : ℕ) (copies : Forest Style)
        → size templates ≤ fuel
        → n + length items * size templates ≤ 2 ^ 32
        → Holds doc for_id ids templates copies n
        → Leaves
            (expand_items style fuel for_id ids doc items)
            for_id
            ids
            templates
            (beside_all copies (filled_all style items templates))
            (n + length items * size templates)
    unfolding expand_items filled_all
    items-Leaves [] doc n copies le room h = record {
      doc = doc;
      result = refl;
      holds =
          let e : n ≡ n + 0 * size templates = omega arith in
          subst (λ k. Holds doc for_id ids templates (beside_all copies no_trees) k) e
            (subst (λ c. Holds doc for_id ids templates c n) (sym (beside_all-none copies)) h);
    }
    items-Leaves (item ∷ items) doc n copies le room h =
        let e : n + size templates + length items * size templates
            ≡ n + length (item ∷ items) * size templates =
          grind arith in
        let one =
          item-Leaves style item templates fuel doc ids n copies h.templates_stand le
            (omega (arith, e, room)) h in
        let t1 = filled style item templates in
        let r =
          items-Leaves items one.doc (n + size templates) (beside_all copies t1) le
            (omega (arith, e, room)) one.holds in
        record {
          doc = r.doc;
          result = items-expanded item items doc one.doc one.result ∙ r.result;
          holds =
              subst
                (λ z.
                  Holds r.doc for_id ids templates
                    (beside_all copies (filled_all style (item ∷ items) templates)) z)
                e
                (subst
                  (λ z.
                    Holds r.doc for_id ids templates z
                      (n + size templates + length items * size templates))
                  (beside_all_assoc copies t1 (filled_all style items templates)) r.holds);
        }
