-- ===== src/Document/Tests.antt =====
-- A document with a box that holds two texts, and a clone of the box.
use oxiterm.Common.{ℕ, ◌≤◌, ◌^◌, ◌≡◌, refl, Option, some, List, [], ◌∷◌, arith}
use oxiterm.Common.Outcome.{ok, err}
use oxiterm.Common.Texts.{codes}
use oxiterm.Dom.{NodeTag, Node, new_node}
use oxiterm.Arena.{get, alloc, update}
use oxiterm.Arena.Updates.{Grown}
use oxiterm.Document.{ThtmlDocument, append_child}
use oxiterm.Document.Clone.{clone_subtree, source_not_found}
use oxiterm.Document.Forest.{Forest, tree, no_trees, size, FromOn, AreTrees, AreNumbered}
use oxiterm.Document.Copies.{clone_subtree-AreNumbered}

abbrev text_node : Option (List ℕ) → Node ℕ
text_node content = record (new_node 0 NodeTag.text) { text_content = content }

abbrev box_node : Node ℕ
box_node = new_node 0 NodeTag.box

abbrev page : ThtmlDocument ℕ
page = record {
  arena = record {
    nodes =
        some (record (new_node 0 NodeTag.screen) { children = 3 ∷ [] })
        ∷ some (text_node (some (codes "b")))
        ∷ some (text_node (some (codes "a")))
        ∷ some (record box_node { children = 2 ∷ 1 ∷ [] })
        ∷ [];
    free_list = [];
  };
  root = 0;
  dirty_nodes = [];
}

abbrev texts : Forest ℕ
texts =
    tree (text_node (some (codes "a"))) no_trees
      (tree (text_node (some (codes "b"))) no_trees no_trees)

page-AreTrees : AreTrees page.arena (FromOn 0) (3 ∷ []) (tree box_node texts no_trees)
unfolding AreTrees get
page-AreTrees = (
  omega arith,
  (
    record box_node { children = 2 ∷ 1 ∷ [] },
    refl,
    refl,
    (
      omega arith,
      (text_node (some (codes "a")), refl, refl, tt),
      (omega arith, (text_node (some (codes "b")), refl, refl, tt), tt),
    ),
  ),
  tt,
)

cloned :
    clone_subtree 3 page 3
    ≡ ok (record {
      arena = record {
        nodes =
            some (record box_node { children = 1 ∷ 2 ∷ [] })
            ∷ some (text_node (some (codes "a")))
            ∷ some (text_node (some (codes "b")))
            ∷ [];
        free_list = [];
      };
      root = 0;
      dirty_nodes = 0 ∷ [];
    })
unfolding clone_subtree get alloc update append_child
cloned = refl

missing : clone_subtree 3 page 9 ≡ err source_not_found
unfolding clone_subtree get
missing = refl

small_tree : size (tree box_node texts no_trees) ≤ 3
unfolding size
small_tree = omega arith

fitting_tree : size (tree box_node texts no_trees) ≤ 2 ^ 32
unfolding size
fitting_tree = omega arith

clone_subtree-AreNumbered_example :
    (copy : ThtmlDocument ℕ) × (clone_subtree 3 page 3 ≡ ok copy)
    × AreNumbered copy.arena 0 (copy.root ∷ []) (tree box_node texts no_trees)
    × Grown copy.arena (size (tree box_node texts no_trees))
clone_subtree-AreNumbered_example =
    clone_subtree-AreNumbered page 3 3 box_node texts page-AreTrees small_tree fitting_tree
