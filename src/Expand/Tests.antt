-- ===== src/Expand/Tests.antt =====
-- The tests of expand.rs: a `for` node with one text for a template.
use oxiterm.Common.{ℕ, ◌+◌, ◌*◌, ◌^◌, ◌≤◌, ◌≡◌, refl, true, some, List, [], ◌∷◌, length, arith}
use oxiterm.Common.Outcome.{ok, err}
use oxiterm.Common.Texts.{codes, starts_with, text_len}
use oxiterm.Dom.{NodeTag, Text, Node, new_node}
use oxiterm.Arena.{get, alloc, update}
use oxiterm.Document.{ThtmlDocument}
use oxiterm.Document.Forest.{tree, no_trees, size, beside_all, AreTrees}
use oxiterm.Expand.{template_ids_of, expand_for_node, replace, not_a_for_node}
use oxiterm.Expand.Filled.{filled_all, is_plain}
use oxiterm.Expand.Ready.{IsForNode, ChildrenAre, expand_for_node-IsForNode}

abbrev text_node : Text → Node ℕ
text_node content = record (new_node 0 NodeTag.text) { text_content = some content }

abbrev for_node : List ℕ → Node ℕ
for_node ids = record (new_node 0 NodeTag.for_loop) { children = ids }

abbrev template : Node ℕ
template = text_node (codes "Value: {item}")

-- The `for` node behind its template.
abbrev page : ThtmlDocument ℕ
page = record {
  arena = record { nodes = some template ∷ some (for_node (0 ∷ [])) ∷ []; free_list = [] };
  root = 1;
  dirty_nodes = [];
}

abbrev once : ThtmlDocument ℕ
once = record page {
  arena = record {
    nodes =
        some template
        ∷ some (for_node (0 ∷ 2 ∷ 3 ∷ []))
        ∷ some (text_node (codes "Value: A"))
        ∷ some (text_node (codes "Value: B"))
        ∷ [];
    free_list = [];
  };
}

replaced : replace (codes "{item}") (codes "x") (codes "a{item}{item}b{item") ≡ codes "axxb{item"
unfolding replace starts_with text_len
replaced = refl

expanded : expand_for_node 0 1 page 1 (codes "A" ∷ codes "B" ∷ []) [] ≡ (ok once, (1, 0 ∷ []) ∷ [])
unfolding expand_for_node replace starts_with text_len get alloc update
expanded = refl

-- The copies of the first expansion stay in the arena.
expanded_twice : expand_for_node 0 1 once 1 (codes "D" ∷ []) ((1, 0 ∷ []) ∷ []) ≡ (
  ok (record page {
    arena = record {
      nodes =
          some template
          ∷ some (for_node (0 ∷ 4 ∷ []))
          ∷ some (text_node (codes "Value: A"))
          ∷ some (text_node (codes "Value: B"))
          ∷ some (text_node (codes "Value: D"))
          ∷ [];
      free_list = [];
    };
  }),
  (1, 0 ∷ []) ∷ [],
)
unfolding expand_for_node replace starts_with text_len get alloc update
expanded_twice = refl

not_expanded : (expand_for_node 0 1 page 0 [] []).0 ≡ err not_a_for_node
unfolding expand_for_node get
not_expanded = refl

once-IsForNode : IsForNode once ((1, 0 ∷ []) ∷ []) 1 (0 ∷ []) (tree template no_trees no_trees) 4
unfolding AreTrees get template_ids_of
once-IsForNode = record {
  node = for_node (0 ∷ 2 ∷ 3 ∷ []);
  behind = 2 ∷ 3 ∷ [];
  at = refl;
  loops = refl;
  entry = refl;
  children = refl;
  grown = record { no_free = refl; size = refl };
  templates_stand = ((λ p. omega (arith, p)), (template, refl, refl, tt), tt);
}

one_deep : (x : Node ℕ) → size (tree x no_trees no_trees) ≤ 1
unfolding size
one_deep x = omega arith

template_plain : is_plain (tree template no_trees no_trees) ≡ true
unfolding is_plain
template_plain = refl

room_for_one :
    4 + length {A = Text} (codes "D" ∷ []) * size (tree template no_trees no_trees) ≤ 2 ^ 32
unfolding size
room_for_one = omega arith

expand_for_node-IsForNode_example :
    (doc' : ThtmlDocument ℕ) × (cache' : List (ℕ × List ℕ)) × (expand_for_node 0 1 once 1
        (codes "D" ∷ [])
        ((1, 0 ∷ []) ∷ [])
      ≡ (ok doc', cache'))
    × ChildrenAre doc' 1 (
        beside_all
          (tree template no_trees no_trees)
          (filled_all 0 (codes "D" ∷ []) (tree template no_trees no_trees)))
    × IsForNode doc' cache' 1
        (0 ∷ [])
        (tree template no_trees no_trees)
        (4 + length {A = Text} (codes "D" ∷ []) * size (tree template no_trees no_trees))
expand_for_node-IsForNode_example =
    expand_for_node-IsForNode once ((1, 0 ∷ []) ∷ []) 1 (0 ∷ []) (tree template no_trees no_trees) 4
      once-IsForNode 0 1 (codes "D" ∷ []) template_plain (one_deep template) room_for_one
