-- ===== src/Layout/Hit.antt =====
-- The node that a hit test finds is the one on top.
use oxiterm.Common.{
  ℕ, ◌+◌, ◌^◌, ◌≤◌, ◌<◌, ◌≡◌, ◌≢◌, refl, sym, subst, ◌∙◌, ◌==◌, ap, true, false, Option, none, some,
  List, [], ◌∷◌, ◌++◌, arith, All, lookup, if◌then◌else◌, Bool-cases, Option-cases, inl, inr,
}
use oxiterm.Layout.{Rect, LayoutResult, contains, covers, find_painted, find_node}

-- The place lies in the rectangle.
abbrev pub Inside : Rect → ℕ → ℕ → Type 0
Inside r x y = (r.x ≤ x) × (x < r.x + r.width) × (r.y ≤ y) × (y < r.y + r.height)

-- The rectangle ends within 16 bits.
abbrev pub Fits : ℕ × Rect → Type 0
Fits (_, r) = (r.x + r.width < 2 ^ 16) × (r.y + r.height < 2 ^ 16)

contains-Inside :
    (r : Rect) (x y : ℕ) (id : ℕ) → Fits (id, r) → contains r x y ≡ true → Inside r x y
unfolding contains
contains-Inside r x y id f h = ground arith

Inside-contains :
    (r : Rect) (x y : ℕ) (id : ℕ) → Fits (id, r) → contains r x y ≡ false → Inside r x y → ⊥
unfolding contains
Inside-contains r x y id f h i = ground arith

pub clash : false ≡ true → ⊥
clash h = cc

some_rect : {a b : Rect} → some a ≡ some b → a ≡ b
some_rect h = cc

lookup-Fits :
    (nodes : List (ℕ × Rect)) (id : ℕ) (r : Rect)
    → All Fits nodes
    → lookup nodes id ≡ some r
    → Fits (id, r)
lookup-Fits [] id r f h = cc
lookup-Fits ((i, s) ∷ nodes) id r f h = elim (Bool-cases (i == id)) [
  | inl e ↦
      subst (λ q. Fits (id, q))
        (some_rect (sym (ap (λ b. if b then some s else lookup nodes id) e) ∙ h)) f.0
  | inr e ↦ lookup-Fits nodes id r f.1 (sym (ap (λ b. if b then some s else lookup nodes id) e) ∙ h)
]

module _ (nodes : List (ℕ × Rect)) (col row : ℕ) where
  -- The node is laid out around the place, or is not.
  abbrev pub Hit : ℕ → Type 0
  Hit id = (r : Rect) × (lookup nodes id ≡ some r) × Inside r col row

  abbrev pub Missed : ℕ → Type 0
  Missed id = (r : Rect) → lookup nodes id ≡ some r → Inside r col row → ⊥

  covers-none : (id : ℕ) → lookup nodes id ≡ none → covers nodes col row id ≡ false
  unfolding covers
  covers-none id e = rw (covers, e) refl

  covers-some :
      (id : ℕ) (r : Rect) → lookup nodes id ≡ some r → covers nodes col row id ≡ contains r col row
  unfolding covers
  covers-some id r e = rw (covers, e) refl

  covers-Hit : (id : ℕ) → All Fits nodes → covers nodes col row id ≡ true → Hit id
  covers-Hit id f h = elim (Option-cases (lookup nodes id)) [
    | inl e ↦ absurd (clash (sym (covers-none id e) ∙ h))
    | inr (r, e) ↦ (
      r,
      e,
      contains-Inside r col row id (lookup-Fits nodes id r f e) (sym (covers-some id r e) ∙ h),
    )
  ]

  covers-Missed : (id : ℕ) → All Fits nodes → covers nodes col row id ≡ false → Missed id
  covers-Missed id f h r e i =
      Inside-contains r col row id (lookup-Fits nodes id r f e) (sym (covers-some id r e) ∙ h) i

  -- What the hit test says of the paint order.
  abbrev pub TopMost : List ℕ → Option ℕ → Type 0
  TopMost order none = All Missed order
  TopMost order (some id) =
      (below above : List ℕ) × (order ≡ below ++ id ∷ above) × Hit id × All Missed above

  push-TopMost :
      (id : ℕ) (ids : List ℕ) (found : Option ℕ)
      → All Fits nodes
      → TopMost ids found
      → TopMost (id ∷ ids) (elim found [
        | some above ↦ some above
        | none ↦ if covers nodes col row id then some id else none
      ])
  push-TopMost id ids (some k) f (below, above, e, hit, missed) =
      (id ∷ below, above, ap (λ l. id ∷ l) e, hit, missed)
  push-TopMost id ids none f missed = elim (Bool-cases (covers nodes col row id)) [
    | inl h ↦ rw h ([], ids, refl, covers-Hit id f h, missed)
    | inr h ↦ rw h (covers-Missed id f h, missed)
  ]

  painted-TopMost :
      (order : List ℕ) → All Fits nodes → TopMost order (find_painted nodes col row order)
  unfolding find_painted
  painted-TopMost [] f = tt
  painted-TopMost (id ∷ ids) f =
      push-TopMost id ids (find_painted nodes col row ids) f (painted-TopMost ids f)

tested-TopMost :
    (nodes : List (ℕ × Rect)) (col row : ℕ) (order : List ℕ) (other : Option ℕ)
    → All Fits nodes
    → order ≢ []
    → TopMost nodes col row order
        (elim order [ [] ↦ other | id ∷ ids ↦ find_painted nodes col row (id ∷ ids) ])
tested-TopMost nodes col row [] other f ne = absurd (ne refl)
tested-TopMost nodes col row (id ∷ ids) other f ne = painted-TopMost nodes col row (id ∷ ids) f

-- With a paint order, the hit test finds the last node in it whose rectangle the place lies in: all
-- behind it are missed, and all are where it finds none. The rectangles end within 16 bits.
pub find_node-TopMost :
    (result : LayoutResult) (col row : ℕ)
    → All Fits result.nodes
    → result.paint_order ≢ []
    → TopMost result.nodes col row result.paint_order (find_node result col row)
unfolding find_node
find_node-TopMost result col row f ne =
    tested-TopMost result.nodes col row result.paint_order _ f ne
