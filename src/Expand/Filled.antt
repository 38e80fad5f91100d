-- ===== src/Expand/Filled.antt =====
-- What the copies of the templates hold, and which templates are refused.
use oxiterm.Common.{
  ℕ, zero, suc, ◌≤◌, ◌≡◌, refl, ap, ◌∙◌, Bool, true, false, not, ◌&&◌, some, List, [], ◌∷◌, arith,
  Bool-cases, inl, inr,
}
use oxiterm.Common.Outcome.{Result, ok, err}
use oxiterm.Dom.{Text, Node}
use oxiterm.Arena.{get}
use oxiterm.Document.{ThtmlDocument}
use oxiterm.Document.Forest.{Forest, no_trees, tree, size, beside_all, AreTrees}
use oxiterm.Expand.{
  ExpandError, bindings_in_template, has_bindings, validate_all, validate_template_node,
  filled_node,
}

-- What a validation answers.
unfoldable pub validated : Bool → Result ExpandError (Unit {0})
validated true = ok tt
validated false = err bindings_in_template

-- The validation of a list by that of its first node and that of the others.
validate_all-plain :
    (validate : ℕ → Result ExpandError (Unit {0})) (id : ℕ) (ids : List ℕ) (p q : Bool)
    → validate id ≡ validated p
    → validate_all validate ids ≡ validated q
    → validate_all validate (id ∷ ids) ≡ validated (p && q)
unfolding validate_all validated
validate_all-plain validate id ids true q h e = rw (validate_all, h) e
validate_all-plain validate id ids false q h e = rw (validate_all, h) refl

module _ {Style : Type 0} where
  -- The trees with an item for the mark in their texts.
  unfoldable pub filled : Style → Text → Forest Style → Forest Style
  filled style item no_trees = no_trees
  filled style item (tree x below beside) =
      tree (filled_node style item x) (filled style item below) (filled style item beside)

  -- One copy of the trees per item.
  unfoldable pub filled_all : Style → List Text → Forest Style → Forest Style
  unfolding filled
  filled_all style [] templates = no_trees
  filled_all style (item ∷ items) templates =
      beside_all (filled style item templates) (filled_all style items templates)

  -- No node has a binding.
  unfoldable pub is_plain : Forest Style → Bool
  is_plain no_trees = true
  is_plain (tree x below beside) = not (has_bindings x) && (is_plain below && is_plain beside)

  validate-node :
      (fuel : ℕ) (doc : ThtmlDocument Style) (id : ℕ) (m : Node Style) (below : Bool)
      → get doc.arena id ≡ some m
      → validate_all (validate_template_node fuel doc) m.children ≡ validated below
      → validate_template_node (suc fuel) doc id ≡ validated (not (has_bindings m) && below)
  unfolding validate_template_node validated
  validate-node fuel doc id m below h e = elim (Bool-cases (has_bindings m)) [
    | inl b ↦ rw (validate_template_node, h, b) refl
    | inr b ↦ rw (validate_template_node, h, b) e
  ]

  -- The validation of some trees says whether they are plain.
  pub validate_all-is_plain :
      (trees : Forest Style) (fuel : ℕ) (doc : ThtmlDocument Style) (P : ℕ → Type 0) (ids : List ℕ)
      → AreTrees doc.arena P ids trees
      → size trees ≤ fuel
      → validate_all (validate_template_node fuel doc) ids ≡ validated (is_plain trees)
  unfolding AreTrees size is_plain validated validate_all
  validate_all-is_plain no_trees fuel doc P [] h le = refl
  validate_all-is_plain no_trees fuel doc P (id ∷ ids) h le = absurd h
  validate_all-is_plain (tree x below beside) fuel doc P [] h le = absurd h
  validate_all-is_plain (tree x below beside) zero doc P (id ∷ ids) h le =
      absurd (omega (arith, le))
  validate_all-is_plain (tree x below beside) (suc fuel) doc P (id ∷ ids) (p, (m, g, e, ts), rest)
        le =
      let node =
        validate-node fuel doc id m (is_plain below) g
          (validate_all-is_plain below fuel doc P m.children ts (omega (arith, le))) in
      let others = validate_all-is_plain beside (suc fuel) doc P ids rest (omega (arith, le)) in
      validate_all-plain (validate_template_node (suc fuel) doc) id ids _ (is_plain beside) node
        others
      ∙ ap validated (
          and_assoc (not (has_bindings m)) (is_plain below) (is_plain beside)
          ∙ ap (λ (y : Node Style). not (has_bindings y) && (is_plain below && is_plain beside)) e)
    where
      and_assoc : (a b c : Bool) → ((a && b) && c) ≡ (a && (b && c))
      and_assoc true b c = refl
      and_assoc false b c = refl
