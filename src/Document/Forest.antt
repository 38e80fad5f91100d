-- ===== src/Document/Forest.antt =====
-- Trees of nodes in an arena.
use oxiterm.Common.{ℕ, suc, ◌+◌, ◌≤◌, ◌≡◌, refl, ap, subst, arith, some, List, [], ◌∷◌, ◌++◌}
use oxiterm.Dom.{Node}
use oxiterm.Arena.{NodeArena, get}
use oxiterm.Document.Clone.{bare}

-- Some trees side by side: a node, the trees below it and those beside it. The node stands without
-- the ids of its children.
pub data Forest (Style : Type 0) : Type 0 where
  no_trees : Forest Style
  tree : Node Style → Forest Style → Forest Style → Forest Style

unfoldable pub size : {Style : Type 0} → Forest Style → ℕ
size no_trees = 0
size (tree node below beside) = suc (size below + size beside)

unfoldable pub beside_all : {Style : Type 0} → Forest Style → Forest Style → Forest Style
beside_all no_trees rest = rest
beside_all (tree node below beside) rest = tree node below (beside_all beside rest)

-- The ids from a bound on.
abbrev pub FromOn : ℕ → ℕ → Type 0
FromOn b id = b ≤ id

-- Trees that stand in an arena at some ids, with all their ids in a set.
unfoldable pub AreTrees :
    {Style : Type 0} → NodeArena Style → (ℕ → Type 0) → List ℕ → Forest Style → Type 0
AreTrees a P [] no_trees = Unit
AreTrees a P (id ∷ ids) (tree node below beside) =
    P id
    × ((m : Node _) × (get a id ≡ some m) × (bare m ≡ node) × AreTrees a P m.children below)
    × AreTrees a P ids beside
AreTrees a P _ _ = ⊥

module _ {Style : Type 0} where
  -- The live nodes of a set stay as they are.
  unfoldable pub Keeps : (ℕ → Type 0) → NodeArena Style → NodeArena Style → Type 0
  Keeps P a c = (j : ℕ) (m : Node Style) → P j → get a j ≡ some m → get c j ≡ some m

  pub AreTrees-Keeps :
      (trees : Forest Style) (a c : NodeArena Style) (P : ℕ → Type 0) (ids : List ℕ)
      → Keeps P a c
      → AreTrees a P ids trees
      → AreTrees c P ids trees
  unfolding AreTrees Keeps
  AreTrees-Keeps no_trees a c P [] k h = tt
  AreTrees-Keeps no_trees a c P (id ∷ ids) k h = h
  AreTrees-Keeps (tree node below beside) a c P [] k h = h
  AreTrees-Keeps (tree node below beside) a c P (id ∷ ids) k (le, (m, g, e, ts), rest) = (
    le,
    (m, k id m le g, e, AreTrees-Keeps below a c P m.children k ts),
    AreTrees-Keeps beside a c P ids k rest,
  )

  pub AreTrees-weaken :
      (trees : Forest Style) (a : NodeArena Style) (P Q : ℕ → Type 0) (ids : List ℕ)
      → ((i : ℕ) → P i → Q i)
      → AreTrees a P ids trees
      → AreTrees a Q ids trees
  unfolding AreTrees
  AreTrees-weaken no_trees a P Q [] into h = tt
  AreTrees-weaken no_trees a P Q (id ∷ ids) into h = h
  AreTrees-weaken (tree node below beside) a P Q [] into h = h
  AreTrees-weaken (tree node below beside) a P Q (id ∷ ids) into (p, (m, g, e, ts), rest) = (
    into id p,
    (m, g, e, AreTrees-weaken below a P Q m.children into ts),
    AreTrees-weaken beside a P Q ids into rest,
  )

  pub AreTrees-beside :
      (trees : Forest Style) (a : NodeArena Style) (P : ℕ → Type 0) (ids : List ℕ) (more : List ℕ)
      (rest : Forest Style)
      → AreTrees a P ids trees
      → AreTrees a P more rest
      → AreTrees a P (ids ++ more) (beside_all trees rest)
  unfolding AreTrees beside_all
  AreTrees-beside no_trees a P [] more rest h i = i
  AreTrees-beside no_trees a P (id ∷ ids) more rest h i = absurd h
  AreTrees-beside (tree node below beside) a P [] more rest h i = absurd h
  AreTrees-beside (tree node below beside) a P (id ∷ ids) more rest (le, t, ts) i =
      (le, t, AreTrees-beside beside a P ids more rest ts i)

  pub beside_all_assoc :
      (s t u : Forest Style) → beside_all (beside_all s t) u ≡ beside_all s (beside_all t u)
  unfolding beside_all
  beside_all_assoc no_trees t u = refl
  beside_all_assoc (tree node below beside) t u = ap (tree node below) (beside_all_assoc beside t u)

  pub beside_all-none : (s : Forest Style) → beside_all s no_trees ≡ s
  unfolding beside_all
  beside_all-none no_trees = refl
  beside_all-none (tree node below beside) = ap (tree node below) (beside_all-none beside)

-- Trees that stand in an arena at some ids, each node at its number in the order in which a node
-- comes before those below it, and those before the ones beside it; the numbers begin with one.
unfoldable pub AreNumbered : {Style : Type 0} → NodeArena Style → ℕ → List ℕ → Forest Style → Type 0
unfolding size
AreNumbered a n [] no_trees = Unit
AreNumbered a n (id ∷ ids) (tree node below beside) =
    (id ≡ n)
    × ((m : Node _) × (get a id ≡ some m)
        × (bare m ≡ node)
        × AreNumbered a (suc n) m.children below)
    × AreNumbered a (suc n + size below) ids beside
AreNumbered a n _ _ = ⊥

module _ {Style : Type 0} where
  pub AreNumbered-Keeps :
      (trees : Forest Style) (a c : NodeArena Style) (n : ℕ) (ids : List ℕ)
      → Keeps (FromOn n) a c
      → AreNumbered a n ids trees
      → AreNumbered c n ids trees
  unfolding AreNumbered Keeps
  AreNumbered-Keeps no_trees a c n [] k h = tt
  AreNumbered-Keeps no_trees a c n (id ∷ ids) k h = h
  AreNumbered-Keeps (tree node below beside) a c n [] k h = h
  AreNumbered-Keeps (tree node below beside) a c n (id ∷ ids) k (same, (m, g, e, ts), rest) = (
    same,
    (
      m,
      k id m (omega (arith, same)) g,
      e,
      AreNumbered-Keeps below a c (suc n) m.children (λ j x le. k j x (omega (arith, le))) ts,
    ),
    AreNumbered-Keeps beside a c (suc n + size below) ids (λ j x le. k j x (omega (arith, le)))
        rest,
  )

  pub AreNumbered-beside :
      (trees : Forest Style) (a : NodeArena Style) (n : ℕ) (ids : List ℕ) (more : List ℕ)
      (rest : Forest Style)
      → AreNumbered a n ids trees
      → AreNumbered a (n + size trees) more rest
      → AreNumbered a n (ids ++ more) (beside_all trees rest)
  unfolding AreNumbered beside_all size
  AreNumbered-beside no_trees a n [] more rest h i =
      subst (λ k. AreNumbered a k more rest) (omega arith) i
  AreNumbered-beside no_trees a n (id ∷ ids) more rest h i = absurd h
  AreNumbered-beside (tree node below beside) a n [] more rest h i = absurd h
  AreNumbered-beside (tree node below beside) a n (id ∷ ids) more rest (same, t, ts) i = (
    same,
    t,
    AreNumbered-beside beside a (suc n + size below) ids more rest ts
        (subst (λ k. AreNumbered a k more rest) (omega arith) i),
  )

  pub size-beside_all : (s t : Forest Style) → size (beside_all s t) ≡ size s + size t
  unfolding size beside_all
  size-beside_all no_trees t = omega arith
  size-beside_all (tree node below beside) t = omega (arith, size-beside_all beside t)
