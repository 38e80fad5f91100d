-- ===== src/Diagram/Layout/Apart.antt =====
-- The boxes of a diagram from the top down do not overlap.
use oxiterm.Common.{
  ℕ, ◌+◌, ◌*◌, ◌≤◌, ◌≡◌, ◌⊎◌, sym, ap, subst, some, List, [], ◌∷◌, ◌++◌, arith, List-cases, inl,
  inr, All, All-append,
}
use oxiterm.Common.Texts.{Text}
use oxiterm.Diagram.{td, Graph}
use oxiterm.Diagram.Layout.{
  NodePosition, GraphLayout, Placed, push_node, position, next, first, finish, place_groups,
  layer_groups, nothing_placed, laid, compute_layout,
}
use oxiterm.Diagram.Layout.Places.{layout-keeps}

-- A box lies to the left of another or above it.
pub Apart : NodePosition → NodePosition → Type 0
Apart m n = (m.col + m.width ≤ n.col) ⊎ (m.row + m.height ≤ n.row)

pub Pairwise : List NodePosition → Type 0
unfolding Apart
Pairwise [] = Unit
Pairwise (m ∷ nodes) = All (Apart m) nodes × Pairwise nodes

Pairwise-append :
    (nodes : List NodePosition) (n : NodePosition)
    → Pairwise nodes
    → All (λ m. Apart m n) nodes
    → Pairwise (nodes ++ n ∷ [])
unfolding Pairwise
Pairwise-append [] n h a = (tt, tt)
Pairwise-append (m ∷ nodes) n h a =
    (All-append _ nodes (n ∷ []) h.0 (a.0, tt), Pairwise-append nodes n h.1 a.1)

-- A box lies above a layer, or in it to the left of a place.
IsBefore : ℕ → ℕ → NodePosition → Type 0
IsBefore layer c m =
    (m.row + m.height ≤ layer * 5 + 1)
    ⊎ ((m.row + m.height ≤ layer * 5 + 4) × (m.col + m.width ≤ c))

-- The boxes so far do not overlap, and they lie before the next one.
Clear : ℕ → ℕ → Placed → Type 0
Clear layer c p = Pairwise p.nodes × All (IsBefore layer c) p.nodes

before-Apart :
    (layer c : ℕ) (id label : Text) (m : NodePosition)
    → IsBefore layer c m
    → Apart m (position td layer c id label)
unfolding IsBefore Apart position
before-Apart layer c id label m (inl h) = inr h
before-Apart layer c id label m (inr h) = inl h.1

IsBefore-later :
    (layer c d : ℕ) (m : NodePosition) → c ≤ d → IsBefore layer c m → IsBefore layer d m
unfolding IsBefore
IsBefore-later layer c d m le (inl h) = inl h
IsBefore-later layer c d m le (inr h) = inr (h.0, omega (arith, le, h.1))

IsBefore-turn : (layer c : ℕ) (m : NodePosition) → IsBefore layer c m → IsBefore (layer + 1) 2 m
unfolding IsBefore
IsBefore-turn layer c m (inl h) = inl (omega (arith, h))
IsBefore-turn layer c m (inr h) = inl (omega (arith, h.0))

All-map {ℓ} :
    {P Q : NodePosition → Type ℓ} (nodes : List NodePosition)
    → ((n : NodePosition) → P n → Q n)
    → All P nodes
    → All Q nodes
All-map [] f h = h
All-map (n ∷ nodes) f h = (f n h.0, All-map nodes f h.1)

step-Clear :
    (layer c : ℕ) (id label : Text) (p : Placed)
    → Clear layer c p
    → Clear layer
        (next td (position td layer c id label))
        (push_node p (position td layer c id label))
unfolding Clear IsBefore position
step-Clear layer c id label p h =
    let n = position td layer c id label in
    (
      Pairwise-append p.nodes n h.0 (All-map p.nodes (before-Apart layer c id label) h.1),
      All-append _ p.nodes (n ∷ [])
          (All-map p.nodes (λ m. IsBefore-later layer c (next td n) m (omega arith)) h.1)
          (inr (omega arith, omega arith), tt),
    )

turn-Clear : (layer c : ℕ) (p : Placed) → Clear layer c p → Clear (layer + 1) 2 p
unfolding Clear
turn-Clear layer c p h = (h.0, All-map p.nodes (IsBefore-turn layer c) h.1)

-- If a graph goes from the top down, no two boxes of its layout overlap: of any two the earlier
-- one lies above the other or to the left of it.
pub compute_layout-Apart :
    (g : Graph)
    → g.direction ≡ td
    → (l : GraphLayout) × (compute_layout g ≡ some l) × Pairwise l.nodes
unfolding compute_layout Pairwise Clear
compute_layout-Apart g d = elim (List-cases g.nodes) [
  | inl e ↦ (
    record { nodes = []; total_cols = 1; total_rows = 1 },
    ap (λ nodes. laid nodes (place_groups g 0 (layer_groups g) nothing_placed)) e,
    tt,
  )
  | inr (n, (ns, e)) ↦
      let (p, f, (_, _, h)) =
        layout-keeps g Clear
          (subst
            (λ d.
              (layer c : ℕ) (id label : Text) (p : Placed)
              → Clear layer c p
              → Clear layer (next d (position d layer c id label))
                  (push_node p (position d layer c id label)))
            (sym d) step-Clear)
          (subst (λ d. (layer c : ℕ) (p : Placed) → Clear layer c p → Clear (layer + 1) (first d) p)
            (sym d) turn-Clear)
          n ns e (tt, tt) in
      (finish p, f, h.0)
]
