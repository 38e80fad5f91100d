-- ===== src/Document.antt =====
-- oxiterm-renderer/src/document.rs: the document, an arena of nodes with a root and the nodes that
-- wait for a new layout (`THTMLDocument`).
pub mod Clone
pub mod Forest
pub mod Copies
pub mod Appended
mod Tests
use oxiterm.Common.{
  ℕ, Bool, false, ◌||◌, Option, none, some, List, [], ◌∷◌, ◌++◌, lookup, ◌==◌, if◌then◌else◌,
}
use oxiterm.Common.Outcome.{Result, ok, err}
use oxiterm.Dom.{NodeTag, new_node}
use oxiterm.Arena.{NodeArena, new, alloc, get, update, compact}

pub record ThtmlDocument (Style : Type 0) : Type 0 where
  pub arena : NodeArena Style
  pub root : ℕ
  pub dirty_nodes : List ℕ

-- The messages of the errors.
pub data DocumentError : Type 0 where
  parent_not_found child_not_found : DocumentError

unfoldable pub contains_id : List ℕ → ℕ → Bool
contains_id [] id = false
contains_id (i ∷ ids) id = (i == id) || contains_id ids id

-- The list without the first occurrence of the id; `none` where it has none.
remove_first : List ℕ → ℕ → Option (List ℕ)
remove_first [] id = none
remove_first (i ∷ ids) id =
    let later = remove_first ids id in
    if i == id then some ids else elim later [ none ↦ none | some rest ↦ some (i ∷ rest) ]

-- The new ids of the dirty nodes that are left.
rename_dirty : List (ℕ × ℕ) → List ℕ → List ℕ
rename_dirty remap [] = []
rename_dirty remap (id ∷ ids) = elim (lookup remap id) [
  | none ↦ rename_dirty remap ids
  | some new_id ↦ new_id ∷ rename_dirty remap ids
]

module _ {Style : Type 0} where
  pub new_document : Style → Option (ThtmlDocument Style)
  new_document style = elim (alloc new (new_node style NodeTag.screen)) [
    | none ↦ none
    | some (root, arena) ↦ some (record { arena = arena; root = root; dirty_nodes = [] })
  ]

  unfoldable pub mark_dirty : ThtmlDocument Style → ℕ → ThtmlDocument Style
  unfolding contains_id
  mark_dirty doc id =
      if contains_id doc.dirty_nodes id
      then doc
      else record doc { dirty_nodes = doc.dirty_nodes ++ id ∷ [] }

  abbrev pub clear_dirty : ThtmlDocument Style → ThtmlDocument Style
  clear_dirty doc = record doc { dirty_nodes = [] }

  unfoldable pub append_child :
      ThtmlDocument Style → ℕ → ℕ → Result DocumentError (ThtmlDocument Style)
  unfolding mark_dirty
  append_child doc parent child = elim (get doc.arena parent) [
    | none ↦ err parent_not_found
    | some node ↦
        let arena =
          update doc.arena parent (λ n. record n { children = n.children ++ child ∷ [] }) in
        ok (mark_dirty (record doc { arena = arena }) parent)
  ]

  pub detach_child : ThtmlDocument Style → ℕ → ℕ → Result DocumentError (ThtmlDocument Style)
  unfolding mark_dirty remove_first
  detach_child doc parent child = elim (get doc.arena parent) [
    | none ↦ err parent_not_found
    | some node ↦ elim (remove_first node.children child) [
      | none ↦ err child_not_found
      | some rest ↦
          let arena = update doc.arena parent (λ n. record n { children = rest }) in
          ok (mark_dirty (record doc { arena = arena }) parent)
    ]
  ]

  pub compact_document : ThtmlDocument Style → ThtmlDocument Style
  unfolding rename_dirty
  compact_document doc =
      let (arena, remap) = compact doc.arena in
      record {
        arena = arena;
        root = elim (lookup remap doc.root) [ none ↦ doc.root | some new_root ↦ new_root ];
        dirty_nodes = rename_dirty remap doc.dirty_nodes;
      }
