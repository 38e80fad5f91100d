-- ===== src/Diagram/Layout/Tests.antt =====
-- A graph of three nodes in two layers, and one from left to right whose boxes overlap.
use oxiterm.Common.{◌≡◌, refl, none, some, [], ◌∷◌}
use oxiterm.Common.Texts.{codes, text_eq, text_len}
use oxiterm.Common.TextMap.{value_of, insert}
use oxiterm.Diagram.{Direction, td, lr, Graph, find_id, count_to}
use oxiterm.Diagram.Layout.{GraphLayout, compute_layout, position}
use oxiterm.Diagram.Layout.Apart.{Pairwise, compute_layout-Apart}

abbrev fork : Direction → Graph
fork direction = record {
  direction = direction;
  nodes =
      record { id = codes "A"; label = codes "a start with a long label" }
      ∷ record { id = codes "B"; label = codes "B" }
      ∷ record { id = codes "C"; label = codes "C" }
      ∷ [];
  edges =
      record { from = codes "A"; to = codes "B"; label = none }
      ∷ record { from = codes "A"; to = codes "C"; label = none }
      ∷ [];
}

abbrev fork_layout : GraphLayout
fork_layout = record {
  nodes =
      record { id = codes "A"; col = 2; row = 1; width = 29; height = 3; layer = 0 }
      ∷ record { id = codes "B"; col = 2; row = 6; width = 8; height = 3; layer = 1 }
      ∷ record { id = codes "C"; col = 14; row = 6; width = 8; height = 3; layer = 1 }
      ∷ [];
  total_cols = 33;
  total_rows = 10;
}

fork_laid : compute_layout (fork td) ≡ some fork_layout
unfolding compute_layout value_of insert text_eq text_len find_id count_to position
fork_laid = refl

-- The first box ends in column 31, and the boxes of the next layer begin in column 22.
abbrev overlapping : GraphLayout
overlapping = record {
  nodes =
      record { id = codes "A"; col = 2; row = 1; width = 29; height = 3; layer = 0 }
      ∷ record { id = codes "B"; col = 22; row = 1; width = 8; height = 3; layer = 1 }
      ∷ record { id = codes "C"; col = 22; row = 6; width = 8; height = 3; layer = 1 }
      ∷ [];
  total_cols = 33;
  total_rows = 10;
}

fork_overlaps : compute_layout (fork lr) ≡ some overlapping
unfolding compute_layout value_of insert text_eq text_len find_id count_to position
fork_overlaps = refl

compute_layout-Apart_example :
    (l : GraphLayout) × (compute_layout (fork td) ≡ some l) × Pairwise l.nodes
compute_layout-Apart_example = compute_layout-Apart (fork td) refl
