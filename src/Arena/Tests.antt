-- ===== src/Arena/Tests.antt =====
-- Examples of arena.rs.
use oxiterm.Common.{ℕ, ◌≡◌, refl, none, some, [], ◌∷◌, arith, lookup}
use oxiterm.Dom.{Node, new_node, box, button}
use oxiterm.Arena.{live, rename_children, NodeArena, alloc, get, remove, compact, rename}
use oxiterm.Arena.Slots.{IsValid, Allocated, Removed, count_dead, alloc-Allocated, remove-Removed}
use oxiterm.Arena.Compaction.{compact-keeps, compact-dangling}

-- Nodes without a style.
abbrev leaf : Node (Unit {0})
leaf = new_node tt button

abbrev parent : Node (Unit {0})
parent = record (new_node tt box) { children = 1 ∷ 2 ∷ [] }

-- A parent at 0, a removed child at 1, and two nodes behind it.
abbrev holed : NodeArena (Unit {0})
holed = record { nodes = some parent ∷ none ∷ some leaf ∷ some leaf ∷ []; free_list = 1 ∷ [] }

holed-IsValid : IsValid holed
unfolding count_dead
holed-IsValid = record {
  free_dead = (refl, tt);
  distinct = (tt, tt);
  all_dead = refl;
  small = omega arith;
}

alloc-Allocated_example :
    (id : ℕ) × (a : NodeArena (Unit {0})) × (alloc holed leaf ≡ some (id, a))
    × Allocated holed leaf id a
alloc-Allocated_example = alloc-Allocated holed leaf holed-IsValid (λ e. cc)

remove-Removed_example : Removed holed 2 (remove holed 2)
remove-Removed_example = remove-Removed holed 2 holed-IsValid

compact-keeps_example :
    ((node : Node (Unit {0}))
      → get holed 2 ≡ some node
      → (new_id : ℕ) × (lookup (compact holed).1 2 ≡ some new_id)
        × (get (compact holed).0 new_id ≡ some (rename (compact holed).1 node)))
    × (get holed 2 ≡ none → lookup (compact holed).1 2 ≡ none)
compact-keeps_example = compact-keeps holed 2

-- The parent's removed child 1 names the node that was 2.
compact-dangling_example :
    (rename_children (compact holed).1 (1 ∷ 2 ∷ [])
      ≡ 1 ∷ rename_children (compact holed).1 (2 ∷ []))
    × (node : Node (Unit {0})) × (get (compact holed).0 1 ≡ some node)
unfolding live get
compact-dangling_example = compact-dangling holed 1 (2 ∷ []) refl (omega arith)
