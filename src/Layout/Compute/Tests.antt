-- ===== src/Layout/Compute/Tests.antt =====
-- A screen with two boxes that overlap, of which the first has the higher `z_index`.
use oxiterm.Common.{
  ℕ, zero, suc, ◌+◌, ◌*◌, ◌≤◌, ◌≡◌, ◌≢◌, refl, Option, none, some, [], ◌∷◌, arith, All,
}
use oxiterm.Common.Outcome.{ok}
use oxiterm.Common.Int.{ℤ, pos, negsuc}
use oxiterm.Style.{reset}
use oxiterm.Style.Computed.{
  ComputedStyle, FlexDirection, AlignItems, JustifyContent, WrapMode, Position,
}
use oxiterm.Dom.{NodeTag, Node, new_node}
use oxiterm.Arena.{get}
use oxiterm.Document.{ThtmlDocument, clear_dirty}
use oxiterm.Document.Forest.{Forest, tree, no_trees, size, FromOn, AreTrees}
use oxiterm.Layout.{Rect, LayoutResult, contains, find_node}
use oxiterm.Layout.Hit.{Fits}
use oxiterm.Layout.Compute.{
  insert_rect, insert_in_order, sort_by, collect_all, flatten_all, z_of,
  collect_paint_order_recursive, flatten_layout_recursive, max_bottom_from, with_paint_order,
  compute_result, hit_test,
}
use oxiterm.Layout.Compute.Ends.{compute_result-ends}
use oxiterm.Layout.Compute.Found.{Found, hit_test-Found}

abbrev style_at : Option ℤ → ComputedStyle ℤ ℤ
style_at z_index = record {
  fg = reset;
  bg = reset;
  width = none;
  height = none;
  flex_direction = FlexDirection.column;
  align_items = AlignItems.flex_start;
  justify_content = JustifyContent.flex_start;
  padding = record { top = 0; right = 0; bottom = 0; left = 0 };
  margin = record { top = 0; right = 0; bottom = 0; left = 0 };
  border = none;
  flex = none;
  wrap = WrapMode.no_wrap;
  position = Position.static;
  top = none;
  right = none;
  bottom = none;
  left = none;
  z_index = z_index;
  transitions = [];
  opacity = none;
}

abbrev front_box : Node (ComputedStyle ℤ ℤ)
front_box = new_node (style_at (some (pos 5))) NodeTag.box

abbrev back_box : Node (ComputedStyle ℤ ℤ)
back_box = new_node (style_at (some (negsuc 0))) NodeTag.box

abbrev bare_screen : Node (ComputedStyle ℤ ℤ)
bare_screen = new_node (style_at none) NodeTag.screen

abbrev page : ThtmlDocument (ComputedStyle ℤ ℤ)
page = record {
  arena = record {
    nodes =
        some (record bare_screen { children = 1 ∷ 2 ∷ [] }) ∷ some front_box ∷ some back_box ∷ [];
    free_list = [];
  };
  root = 0;
  dirty_nodes = 1 ∷ [];
}

-- What Taffy says: the boxes stand beside each other by half.
abbrev placed_at : ℕ → Option (Option Rect)
placed_at zero = some (some (record { x = 0; y = 0; width = 80; height = 24 }))
placed_at (suc n) = some (some (record { x = (n + 1) * 4; y = 2; width = 8; height = 3 }))

placed_at-known : (id : ℕ) → placed_at id ≢ some none
placed_at-known zero e = cc
placed_at-known (suc id) e = cc

abbrev page_result : LayoutResult
page_result = record {
  nodes =
      (0, record { x = 0; y = 0; width = 80; height = 24 })
      ∷ (1, record { x = 4; y = 2; width = 8; height = 3 })
      ∷ (2, record { x = 8; y = 2; width = 8; height = 3 })
      ∷ [];
  paint_order = 0 ∷ 2 ∷ 1 ∷ [];
  total_height = 5;
}

computed : compute_result 3 page placed_at ≡ ok (page_result, clear_dirty page)
unfolding compute_result flatten_layout_recursive flatten_all insert_rect get with_paint_order
    max_bottom_from collect_paint_order_recursive collect_all sort_by insert_in_order z_of
computed = refl

-- Both boxes have the place; the first one is found.
front_hit : hit_test (some page_result) 9 3 ≡ some 1
unfolding hit_test find_node contains
front_hit = refl

abbrev boxes : Forest (ComputedStyle ℤ ℤ)
boxes = tree front_box no_trees (tree back_box no_trees no_trees)

page-AreTrees : AreTrees page.arena (FromOn 0) (0 ∷ []) (tree bare_screen boxes no_trees)
unfolding AreTrees get
page-AreTrees = (
  omega arith,
  (
    record bare_screen { children = 1 ∷ 2 ∷ [] },
    refl,
    refl,
    (omega arith, (front_box, refl, refl, tt), (omega arith, (back_box, refl, refl, tt), tt)),
  ),
  tt,
)

page-size : size (tree bare_screen boxes no_trees) ≤ 3
unfolding size
page-size = omega arith

page_result-Fits : All Fits page_result.nodes
page_result-Fits =
    ((omega arith, omega arith), ((omega arith, omega arith), ((omega arith, omega arith), tt)))

compute_result-ends_example :
    (result : LayoutResult) × (compute_result 3 page placed_at ≡ ok (result, clear_dirty page))
compute_result-ends_example =
    compute_result-ends page (FromOn 0) placed_at 3 bare_screen boxes placed_at-known page-AreTrees
      page-size

hit_test-Found_example : Found page 9 3 page_result.nodes (hit_test (some page_result) 9 3)
hit_test-Found_example = hit_test-Found page 9 3 3 placed_at page_result computed page_result-Fits
