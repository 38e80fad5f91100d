-- ===== src/Expand/Clones.antt =====
-- A clone of a template is the filled tree, in new slots of the same arena.
use oxiterm.Common.{
  ℕ, zero, suc, ◌+◌, ◌^◌, ◌≤◌, ◌<◌, ◌≡◌, ◌≢◌, refl, ap, ◌∙◌, some, List, [], ◌∷◌, arith,
}
use oxiterm.Common.Outcome.{Result, ok}
use oxiterm.Dom.{Text, Node}
use oxiterm.Arena.{NodeArena, alloc, get, update}
use oxiterm.Arena.Updates.{
  Grown, get-lt, pushed, alloc-pushed, pushed-Grown, get-pushed_self, get-pushed_other,
  update-Grown, get-update_self, get-update_other,
}
use oxiterm.Document.{ThtmlDocument}
use oxiterm.Document.Clone.{bare}
use oxiterm.Document.Forest.{
  Forest, no_trees, tree, size, FromOn, AreTrees, Keeps, AreTrees-Keeps, AreTrees-weaken,
  AreTrees-beside, beside_all,
}
use oxiterm.Expand.{
  ExpandError, filled_node, with_children, set_children, clone_all, clone_node_replacing_item,
}
use oxiterm.Expand.Filled.{filled}

-- The set of all ids.
abbrev pub AnyId : ℕ → Type 0
AnyId id = Unit

module _ {Style : Type 0} where
  -- What a loop over some nodes has cloned.
  record AllCloned (copy : Result ExpandError (List ℕ × ThtmlDocument Style)) (a : NodeArena Style)
      (n k : ℕ) (copies : Forest Style) : Type 0 where
    ids : List ℕ
    doc : ThtmlDocument Style
    result : copy ≡ ok (ids, doc)
    grown : Grown doc.arena k
    keeps : Keeps AnyId a doc.arena
    stand : AreTrees doc.arena (FromOn n) ids copies

  -- What the clone of one node has.
  pub record Cloned (copy : Result ExpandError (ℕ × ThtmlDocument Style)) (a : NodeArena Style)
      (n k : ℕ) (copies : Forest Style) : Type 0 where
    pub doc : ThtmlDocument Style
    pub result : copy ≡ ok (n, doc)
    pub grown : Grown doc.arena k
    pub keeps : Keeps AnyId a doc.arena
    pub stand : AreTrees doc.arena (FromOn n) (n ∷ []) copies

  module _ (style : Style) (item : Text) where
    node-cloned :
        (fuel : ℕ) (doc below doc' : ThtmlDocument Style) (id n : ℕ) (m : Node Style)
        (arena : NodeArena Style) (ids : List ℕ)
        → get doc.arena id ≡ some m
        → alloc doc.arena (filled_node style item m) ≡ some (n, arena)
        → clone_all
            (clone_node_replacing_item style fuel item)
            (record doc { arena = arena })
            m.children
          ≡ ok (ids, below)
        → set_children below n ids ≡ ok doc'
        → clone_node_replacing_item style (suc fuel) item doc id ≡ ok (n, doc')
    unfolding clone_node_replacing_item
    node-cloned fuel doc below doc' id n m arena ids h e c s =
        rw (clone_node_replacing_item, h, e, c, s) refl

    set_children-live :
        (doc : ThtmlDocument Style) (id : ℕ) (ids : List ℕ) (m : Node Style)
        → get doc.arena id ≡ some m
        → set_children doc id ids
          ≡ ok (record doc { arena = update doc.arena id (with_children ids) })
    unfolding set_children
    set_children-live doc id ids m h = rw (set_children, h) refl

    -- A node is cloned when the nodes below it are.
    node-Cloned :
        (fuel : ℕ) (doc : ThtmlDocument Style) (id n k : ℕ) (m x : Node Style)
        (below : Forest Style)
        → get doc.arena id ≡ some m
        → bare m ≡ x
        → Grown doc.arena n
        → n < 2 ^ 32
        → AllCloned
            (clone_all
              (clone_node_replacing_item style fuel item)
              (record doc { arena = pushed doc.arena (filled_node style item m) })
              m.children)
            (pushed doc.arena (filled_node style item m))
            (suc n)
            k
            (filled style item below)
        → Cloned
            (clone_node_replacing_item style (suc fuel) item doc id)
            doc.arena
            n
            k
            (filled style item (tree x below no_trees))
    unfolding AreTrees Keeps filled
    node-Cloned fuel doc id n k m x below h e g lt c =
        let y = filled_node style item m in
        let at : get c.doc.arena n ≡ some y = c.keeps n y tt (get-pushed_self doc.arena n y g) in
        let last = update c.doc.arena n (with_children c.ids) in
        let kept : (j : ℕ) (z : Node Style)
            → n ≢ j
            → get c.doc.arena j ≡ some z
            → get last j ≡ some z =
          λ j z ne i. get-update_other c.doc.arena n j y (with_children c.ids) at ne ∙ i in
        record {
          doc = record c.doc { arena = last };
          result =
              node-cloned fuel doc c.doc _ id n m _ c.ids h (alloc-pushed doc.arena n y g lt)
                c.result (set_children-live c.doc n c.ids y at);
          grown = update-Grown c.doc.arena n k y (with_children c.ids) at c.grown;
          keeps = λ j z _ i.
              kept j z (λ p. omega (arith, p, get-lt doc.arena j z i, g.size))
                (c.keeps j z tt (get-pushed_other doc.arena y z j i));
          stand = (
            omega arith,
            (
              with_children c.ids y,
              get-update_self c.doc.arena n y (with_children c.ids) at,
              ap (filled_node style item) e,
              AreTrees-weaken (filled style item below) last (FromOn (suc n)) (FromOn n) c.ids
                  (λ i q. omega (arith, q))
                  (AreTrees-Keeps (filled style item below) c.doc.arena last (FromOn (suc n)) c.ids
                    (λ j z q i. kept j z (λ p. omega (arith, p, q)) i) c.stand),
            ),
            tt,
          );
        }

    all-cloned :
        (clone : ThtmlDocument Style → ℕ → Result ExpandError (ℕ × ThtmlDocument Style))
        (doc doc' doc'' : ThtmlDocument Style) (id n : ℕ) (ids new_ids : List ℕ)
        → clone doc id ≡ ok (n, doc')
        → clone_all clone doc' ids ≡ ok (new_ids, doc'')
        → clone_all clone doc (id ∷ ids) ≡ ok (n ∷ new_ids, doc'')
    unfolding clone_all
    all-cloned clone doc doc' doc'' id n ids new_ids h e = rw (clone_all, h, e) refl

    -- Trees of an arena are cloned to the filled trees, in the next slots.
    all-Cloned :
        (trees : Forest Style) (P : ℕ → Type 0) (fuel : ℕ) (doc : ThtmlDocument Style)
        (ids : List ℕ) (n : ℕ)
        → AreTrees doc.arena P ids trees
        → size trees ≤ fuel
        → Grown doc.arena n
        → n + size trees ≤ 2 ^ 32
        → AllCloned
            (clone_all (clone_node_replacing_item style fuel item) doc ids)
            doc.arena
            n
            (n + size trees)
            (filled style item trees)
    unfolding AreTrees size Keeps filled clone_all beside_all
    all-Cloned no_trees P fuel doc [] n h le g room = record {
      ids = [];
      doc = doc;
      result = refl;
      grown = record { no_free = g.no_free; size = omega (arith, g.size) };
      keeps = λ j m _ i. i;
      stand = tt;
    }
    all-Cloned no_trees P fuel doc (id ∷ ids) n h le g room = absurd h
    all-Cloned (tree x below beside) P fuel doc [] n h le g room = absurd h
    all-Cloned (tree x below beside) P zero doc (id ∷ ids) n h le g room =
        absurd (omega (arith, le))
    all-Cloned (tree x below beside) P (suc fuel) doc (id ∷ ids) n (p, (m, found, e, ts), rest) le g
          room =
        let y = filled_node style item m in
        let first = pushed doc.arena y in
        let c =
          all-Cloned below P fuel (record doc { arena = first }) m.children (suc n)
            (AreTrees-Keeps below doc.arena first P m.children
              (λ j z _ i. get-pushed_other doc.arena y z j i) ts)
            (omega (arith, le)) (pushed-Grown doc.arena n y g) (omega (arith, room)) in
        let t =
          node-Cloned fuel doc id n (suc n + size below) m x below found e g (omega (arith, room))
            c in
        let r =
          all-Cloned beside P (suc fuel) t.doc ids (suc n + size below)
            (AreTrees-Keeps beside doc.arena t.doc.arena P ids (λ j z _ i. t.keeps j z tt i) rest)
            (omega (arith, le)) t.grown (omega (arith, room)) in
        record {
          ids = n ∷ r.ids;
          doc = r.doc;
          result =
              all-cloned (clone_node_replacing_item style (suc fuel) item) doc t.doc r.doc id n ids
                r.ids t.result r.result;
          grown = record { no_free = r.grown.no_free; size = omega (arith, r.grown.size) };
          keeps = λ j z _ i. r.keeps j z tt (t.keeps j z tt i);
          stand =
              AreTrees-beside (filled style item (tree x below no_trees)) r.doc.arena (FromOn n)
                (n ∷ []) r.ids (filled style item beside)
                (AreTrees-Keeps (filled style item (tree x below no_trees)) t.doc.arena r.doc.arena
                  (FromOn n) (n ∷ []) (λ j z _ i. r.keeps j z tt i) t.stand)
                (AreTrees-weaken (filled style item beside) r.doc.arena
                  (FromOn (suc n + size below)) (FromOn n) r.ids (λ i q. omega (arith, q)) r.stand);
        }

    -- The clone of one tree.
    pub tree-Cloned :
        (x : Node Style) (below : Forest Style) (P : ℕ → Type 0) (fuel : ℕ)
        (doc : ThtmlDocument Style) (id n : ℕ) (m : Node Style)
        → get doc.arena id ≡ some m
        → bare m ≡ x
        → AreTrees doc.arena P m.children below
        → size below ≤ fuel
        → Grown doc.arena n
        → suc n + size below ≤ 2 ^ 32
        → Cloned
            (clone_node_replacing_item style (suc fuel) item doc id)
            doc.arena
            n
            (suc n + size below)
            (filled style item (tree x below no_trees))
    unfolding Keeps
    tree-Cloned x below P fuel doc id n m found e ts le g room =
        let y = filled_node style item m in
        let first = pushed doc.arena y in
        node-Cloned fuel doc id n (suc n + size below) m x below found e g (omega (arith, room)) (
          all-Cloned below P fuel (record doc { arena = first }) m.children (suc n)
            (AreTrees-Keeps below doc.arena first P m.children
              (λ j z _ i. get-pushed_other doc.arena y z j i) ts)
            le (pushed-Grown doc.arena n y g) room)
