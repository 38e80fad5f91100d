-- ===== src/Document/Clone.antt =====
-- THTMLDocument::clone_subtree of document.rs. The recursion over the nodes is on fuel, which stands
-- for the stack; a panic of the arena is an error of its own.
use oxiterm.Common.{ℕ, zero, suc, none, some, List, [], ◌∷◌}
use oxiterm.Common.Outcome.{Result, ok, err}
use oxiterm.Dom.{Node}
use oxiterm.Arena.{NodeArena, new, alloc, get}
use oxiterm.Document.{ThtmlDocument, DocumentError, append_child}

pub data CloneError : Type 0 where
  source_not_found too_deep arena_panic : CloneError
  not_appended : DocumentError → CloneError

module _ {Style : Type 0} where
  -- The loop over the children, by what copies one.
  unfoldable pub copy_children :
      (ThtmlDocument Style → ℕ → Result CloneError (ℕ × ThtmlDocument Style))
      → ThtmlDocument Style
      → ℕ
      → List ℕ
      → Result CloneError (ℕ × ThtmlDocument Style)
  unfolding append_child
  copy_children copy doc new_id [] = ok (new_id, doc)
  copy_children copy doc new_id (child_id ∷ children) = elim (copy doc child_id) [
    | err e ↦ err e
    | ok (new_child_id, doc) ↦ elim (append_child doc new_id new_child_id) [
      | err e ↦ err (not_appended e)
      | ok doc ↦ copy_children copy doc new_id children
    ]
  ]

  abbrev pub bare : Node Style → Node Style
  bare node = record node { children = [] }

  unfoldable pub copy_node_recursive :
      ℕ → NodeArena Style → ThtmlDocument Style → ℕ → Result CloneError (ℕ × ThtmlDocument Style)
  unfolding get alloc copy_children
  copy_node_recursive zero source target source_id = err too_deep
  copy_node_recursive (suc fuel) source target source_id = elim (get source source_id) [
    | none ↦ err source_not_found
    | some source_node ↦ elim (alloc target.arena (bare source_node)) [
      | none ↦ err arena_panic
      | some (new_id, arena) ↦
          copy_children (copy_node_recursive fuel source) (record target { arena = arena }) new_id
            source_node.children
    ]
  ]

  unfoldable pub clone_subtree :
      ℕ → ThtmlDocument Style → ℕ → Result CloneError (ThtmlDocument Style)
  unfolding copy_node_recursive
  clone_subtree fuel doc root_id =
      elim (copy_node_recursive fuel doc.arena (record { arena = new; root = 0; dirty_nodes = [] })
        root_id) [
          | err e ↦ err e
          | ok (new_root, new_doc) ↦ ok (record new_doc { root = new_root })
        ]
