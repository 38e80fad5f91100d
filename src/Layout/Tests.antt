-- ===== src/Layout/Tests.antt =====
-- A button on a box.
use oxiterm.Common.{◌≡◌, refl, some, [], ◌∷◌}
use oxiterm.Layout.{LayoutResult, find_node}

abbrev page : LayoutResult
page = record {
  nodes =
      (4, record { x = 0; y = 0; width = 80; height = 24 })
      ∷ (7, record { x = 10; y = 5; width = 8; height = 1 })
      ∷ [];
  paint_order = 4 ∷ 7 ∷ [];
  total_height = 24;
}

button_hit : find_node page 12 5 ≡ some 7
unfolding find_node
button_hit = refl
