-- ===== src/Arena.antt =====
-- oxiterm-renderer/src/arena.rs: the arena of a document's nodes. `free_list` is a stack, its last
-- element first. A function that may panic returns an `Option`; `none` is the panic.
pub mod Slots
pub mod Compaction
pub mod Updates
mod Tests
use oxiterm.Common.{
  ℕ, suc, ◌+◌, ◌^◌, Option, none, some, List, [], ◌∷◌, ◌++◌, length, get_elem?, set, lookup, ltb,
  if◌then◌else◌,
}
use oxiterm.Dom.{Node}

pub record NodeArena (Style : Type 0) : Type 0 where
  pub nodes : List (Option (Node Style))
  pub free_list : List ℕ

pub rename_children : List (ℕ × ℕ) → List ℕ → List ℕ
rename_children remap [] = []
rename_children remap (c ∷ children) =
    elim (lookup remap c) [ none ↦ c | some n ↦ n ] ∷ rename_children remap children

-- `and_then(Option::as_ref)`
abbrev pub flat : {A : Type 0} → Option (Option A) → Option A
flat none = none
flat (some slot) = slot

module _ {Style : Type 0} where
  abbrev pub new : NodeArena Style
  new = record { nodes = []; free_list = [] }

  -- `self.nodes[i] = Some(node)` panics out of range, `u32::try_from` past 32 bits.
  alloc_at : NodeArena Style → Node Style → List ℕ → Option (ℕ × NodeArena Style)
  alloc_at a node [] =
      if ltb (length a.nodes) (2 ^ 32)
      then some (length a.nodes, record a { nodes = a.nodes ++ some node ∷ [] })
      else none
  alloc_at a node (index ∷ free) =
      if ltb index (length a.nodes)
      then some (index, record { nodes = set a.nodes index (some node); free_list = free })
      else none

  unfoldable pub alloc : NodeArena Style → Node Style → Option (ℕ × NodeArena Style)
  unfolding alloc_at
  alloc a node = alloc_at a node a.free_list

  unfoldable pub get : NodeArena Style → ℕ → Option (Node Style)
  get a id = flat (get_elem? a.nodes id)

  -- `get_mut` and an assignment through it; a dead id changes nothing.
  unfoldable pub update : NodeArena Style → ℕ → (Node Style → Node Style) → NodeArena Style
  unfolding get
  update a id f = elim (get a id) [
    | none ↦ a
    | some node ↦ record a { nodes = set a.nodes id (some (f node)) }
  ]

  pub remove : NodeArena Style → ℕ → NodeArena Style
  unfolding get
  remove a id = elim (get a id) [
    | none ↦ a
    | some node ↦ record { nodes = set a.nodes id none; free_list = id ∷ a.free_list }
  ]

  -- The loop of `compact`: the old index and the new one of each live node, and the nodes.
  pub remap_from : ℕ → ℕ → List (Option (Node Style)) → List (ℕ × ℕ)
  remap_from old_idx new_idx [] = []
  remap_from old_idx new_idx (none ∷ nodes) = remap_from (suc old_idx) new_idx nodes
  remap_from old_idx new_idx (some node ∷ nodes) =
      (old_idx, new_idx) ∷ remap_from (suc old_idx) (suc new_idx) nodes

  pub live : List (Option (Node Style)) → List (Node Style)
  live [] = []
  live (none ∷ nodes) = live nodes
  live (some node ∷ nodes) = node ∷ live nodes

  abbrev pub rename : List (ℕ × ℕ) → Node Style → Node Style
  rename remap node = record node { children = rename_children remap node.children }

  pub rename_all : List (ℕ × ℕ) → List (Node Style) → List (Option (Node Style))
  rename_all remap [] = []
  rename_all remap (node ∷ nodes) = some (rename remap node) ∷ rename_all remap nodes

  -- The new arena, and the map from old ids to new ones.
  pub compact : NodeArena Style → NodeArena Style × List (ℕ × ℕ)
  unfolding remap_from live rename_children rename_all
  compact a =
      let remap = remap_from 0 0 a.nodes in
      (record { nodes = rename_all remap (live a.nodes); free_list = [] }, remap)

  -- The active and all slots, whose quotient the source returns; 1 of 1 where there is none.
  pub occupancy : NodeArena Style → ℕ × ℕ
  unfolding live
  occupancy a = elim a.nodes [ [] ↦ (1, 1) | _ ∷ _ ↦ (length (live a.nodes), length a.nodes) ]
