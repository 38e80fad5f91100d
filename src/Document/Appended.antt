-- ===== src/Document/Appended.antt =====
-- What appending and detaching a child change.
use oxiterm.Common.{
  ℕ, ◌≡◌, ◌≢◌, refl, sym, ap, ◌∙◌, subst, some, [], ◌∷◌, ◌++◌, Bool-cases, inl, inr,
}
use oxiterm.Common.Outcome.{ok}
use oxiterm.Dom.{Node}
use oxiterm.Arena.{NodeArena, get, update}
use oxiterm.Arena.Updates.{Grown, update-Grown, get-update_self, get-update_other}
use oxiterm.Document.{ThtmlDocument, append_child, mark_dirty, contains_id}

module _ {Style : Type 0} where
  pub mark_dirty-arena :
      (doc : ThtmlDocument Style) (id : ℕ) → (mark_dirty doc id).arena ≡ doc.arena
  unfolding mark_dirty
  mark_dirty-arena doc id = elim (Bool-cases (contains_id doc.dirty_nodes id)) [
    | inl e ↦ rw e refl
    | inr e ↦ rw e refl
  ]

  abbrev pub with_child : ℕ → Node Style → Node Style
  with_child child n = record n { children = n.children ++ child ∷ [] }

  -- The document with one more child.
  abbrev pub appended : ThtmlDocument Style → ℕ → ℕ → ThtmlDocument Style
  appended doc parent child =
      mark_dirty (record doc { arena = update doc.arena parent (with_child child) }) parent

  pub append_child-live :
      (doc : ThtmlDocument Style) (parent child : ℕ) (node : Node Style)
      → get doc.arena parent ≡ some node
      → append_child doc parent child ≡ ok (appended doc parent child)
  unfolding append_child
  append_child-live doc parent child node h = rw (append_child, h) refl

  pub get-appended_self :
      (doc : ThtmlDocument Style) (parent child : ℕ) (node : Node Style)
      → get doc.arena parent ≡ some node
      → get (appended doc parent child).arena parent ≡ some (with_child child node)
  get-appended_self doc parent child node h =
      ap (λ (a : NodeArena Style). get a parent) (mark_dirty-arena _ parent)
      ∙ get-update_self doc.arena parent node (with_child child) h

  pub get-appended_other :
      (doc : ThtmlDocument Style) (parent child j : ℕ) (node : Node Style)
      → get doc.arena parent ≡ some node
      → parent ≢ j
      → get (appended doc parent child).arena j ≡ get doc.arena j
  get-appended_other doc parent child j node h ne =
      ap (λ (a : NodeArena Style). get a j) (mark_dirty-arena _ parent)
      ∙ get-update_other doc.arena parent j node (with_child child) h ne

  pub appended-Grown :
      (doc : ThtmlDocument Style) (parent child n : ℕ) (node : Node Style)
      → get doc.arena parent ≡ some node
      → Grown doc.arena n
      → Grown (appended doc parent child).arena n
  appended-Grown doc parent child n node h g =
      subst (λ (a : NodeArena Style). Grown a n) (sym (mark_dirty-arena _ parent))
        (update-Grown doc.arena parent n node (with_child child) h g)
