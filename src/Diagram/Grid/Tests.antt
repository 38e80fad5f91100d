-- ===== src/Diagram/Grid/Tests.antt =====
-- A grid of five columns and three rows with four filled cells, and a diagram of one box.
use oxiterm.Common.{◌≡◌, refl, none, some, [], ◌∷◌, arith, take, drop}
use oxiterm.Common.Texts.{codes, text_eq, text_len}
use oxiterm.Diagram.{td, Graph, find_id}
use oxiterm.Diagram.Layout.{NodePosition, GraphLayout}
use oxiterm.Diagram.Grid.{CellGrid, render_grid, set, for_range, get, border}
use oxiterm.Diagram.Grid.Crop.{Best, crop, pref, count_non_empty}
use oxiterm.Diagram.Grid.Counts.{in_columns, count_non_empty-pref, filled_cells}
use oxiterm.Diagram.Grid.Size.{IsGrid}

abbrev scattered : CellGrid
scattered = record {
  cols = 5;
  rows = 3;
  cells = codes "x    " ∷ codes "   xx" ∷ codes "   x " ∷ [];
}

scattered-IsGrid : IsGrid 5 3 scattered
scattered-IsGrid = record {
  cols = refl;
  rows = refl;
  height = refl;
  width = (refl, (refl, (refl, tt)));
}

abbrev empty_graph : Graph
empty_graph = record { direction = td; nodes = []; edges = [] }

abbrev empty_layout : GraphLayout
empty_layout = record { nodes = []; total_cols = 1; total_rows = 1 }

cropped :
    crop scattered 2 2 none empty_graph empty_layout
    ≡ record { cols = 2; rows = 2; cells = codes "xx" ∷ codes "x " ∷ [] }
unfolding crop set for_range get
cropped = refl

counted_window : in_columns 3 2 (take 2 (drop 1 scattered.cells)) ≡ 3
unfolding in_columns filled_cells
counted_window = refl

count_non_empty-pref_example :
    count_non_empty (pref scattered) 2 2 3 1 ≡ in_columns 3 2 (take 2 (drop 1 scattered.cells))
count_non_empty-pref_example =
    count_non_empty-pref scattered 2 2 3 1 scattered-IsGrid.width (omega arith) (omega arith)

abbrev place : NodePosition
place = record { id = codes "A"; col = 2; row = 0; width = 2; height = 2; layer = 0 }

abbrev box_graph : Graph
box_graph = record {
  direction = td;
  nodes = record { id = codes "A"; label = codes "go" } ∷ [];
  edges = [];
}

abbrev box_layout : GraphLayout
box_layout = record {
  nodes = record { id = codes "A"; col = 0; row = 0; width = 8; height = 3; layer = 0 } ∷ [];
  total_cols = 8;
  total_rows = 3;
}

abbrev box : CellGrid
box = record {
  cols = 8;
  rows = 3;
  cells = codes "┌──────┐" ∷ codes "│  go  │" ∷ codes "└──────┘" ∷ [];
}

box_drawn : render_grid box_graph box_layout ≡ some box
unfolding render_grid find_id text_eq set for_range border text_len
box_drawn = refl
