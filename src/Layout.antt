-- ===== src/Layout.antt =====
-- oxiterm-renderer/src/layout/types.rs: rectangles of nodes, and the node under a place of the
-- screen. Coordinates are `u16`, whose sums wrap. A hash map is a list in the order of its
-- iteration.
pub mod Hit
pub mod Document
pub mod Compute
mod Tests
use oxiterm.Common.{
  ℕ, ◌+◌, ◌*◌, ◌-◌, ◌%◌, ◌^◌, Bool, ◌&&◌, Option, none, some, List, [], ◌∷◌, lookup, ltb, leb,
  if◌then◌else◌,
}

pub record Rect : Type 0 where
  pub x : ℕ
  pub y : ℕ
  pub width : ℕ
  pub height : ℕ

unfoldable pub contains : Rect → ℕ → ℕ → Bool
contains r x y =
    leb r.x x
    && (ltb x ((r.x + r.width) % 2 ^ 16) && (leb r.y y && ltb y ((r.y + r.height) % 2 ^ 16)))

pub record LayoutResult : Type 0 where
  pub nodes : List (ℕ × Rect)
  pub paint_order : List ℕ
  pub total_height : ℕ

module _ (nodes : List (ℕ × Rect)) (col row : ℕ) where
  -- The node is laid out and contains the place.
  pub covers : ℕ → Bool
  unfolding contains
  covers id = elim (lookup nodes id) [ none ↦ Bool.false | some r ↦ contains r col row ]

  -- The loop over `paint_order.iter().rev()`: what stands later is tried first.
  pub find_painted : List ℕ → Option ℕ
  unfolding covers
  find_painted [] = none
  find_painted (id ∷ ids) = elim (find_painted ids) [
    | some above ↦ some above
    | none ↦ if covers id then some id else none
  ]

-- The loop over `nodes`, with `best_node` and `best_area`.
pub find_smallest : ℕ → ℕ → List (ℕ × Rect) → Option ℕ → ℕ → Option ℕ
unfolding contains
find_smallest col row [] best_node best_area = best_node
find_smallest col row ((id, r) ∷ nodes) best_node best_area =
    let area = r.width * r.height in
    let better = contains r col row && leb area best_area in
    find_smallest col row nodes (if better then some id else best_node)
      (if better then area else best_area)

-- `HitTester::find_node`; the area starts at `u32::MAX`.
pub find_node : LayoutResult → ℕ → ℕ → Option ℕ
unfolding find_painted find_smallest
find_node result col row = elim result.paint_order [
  | [] ↦ find_smallest col row result.nodes none (2 ^ 32 - 1)
  | id ∷ ids ↦ find_painted result.nodes col row (id ∷ ids)
]
