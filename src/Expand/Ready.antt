-- ===== src/Expand/Ready.antt =====
-- The expansion of a `for` node as a whole: the first one and all later ones.
use oxiterm.Common.{
  ℕ, ◌+◌, ◌*◌, ◌^◌, ◌≤◌, ◌≡◌, refl, sym, ap, ◌∙◌, subst, true, false, some, List, [], ◌∷◌, ◌++◌,
  append-nil, length, take, lookup, inl, inr, Option-cases, ==_iff,
}
use oxiterm.Common.Outcome.{Result, ok, err}
use oxiterm.Dom.{Text, Node}
use oxiterm.Arena.{get, update}
use oxiterm.Arena.Updates.{Grown, update-Grown, get-update_self, get-update_other}
use oxiterm.Document.{ThtmlDocument}
use oxiterm.Document.Forest.{
  Forest, no_trees, size, beside_all, AreTrees, Keeps, AreTrees-Keeps, AreTrees-beside,
}
use oxiterm.Expand.{
  ExpandError, bindings_in_template, is_for, truncated, template_ids_of, validate_all,
  validate_template_node, expand_items, expand_templates, expand_for_node,
}
use oxiterm.Expand.Filled.{filled_all, is_plain, validated, validate_all-is_plain}
use oxiterm.Expand.Rounds.{OtherThan, Holds, items-Leaves}

-- A `for` node between two expansions: the cache, or else its children, gives its templates, which
-- are its first children and stand as trees that the node itself is not in.
pub record IsForNode {Style : Type 0} (doc : ThtmlDocument Style) (cache : List (ℕ × List ℕ))
    (for_id : ℕ) (ids : List ℕ) (templates : Forest Style) (n : ℕ) : Type 0 where
  pub node : Node Style
  pub behind : List ℕ
  pub at : get doc.arena for_id ≡ some node
  pub loops : is_for node.tag ≡ true
  pub entry : (template_ids_of cache for_id node).0 ≡ ids
  pub children : node.children ≡ ids ++ behind
  pub grown : Grown doc.arena n
  pub templates_stand : AreTrees doc.arena (OtherThan for_id) ids templates

-- What the children of a node are.
pub record ChildrenAre {Style : Type 0} (doc : ThtmlDocument Style) (id : ℕ) (trees : Forest Style)
    : Type 0 where
  pub node : Node Style
  pub at : get doc.arena id ≡ some node
  pub stand : AreTrees doc.arena (OtherThan id) node.children trees

take-append : {A : Type 0} (xs ys : List A) → take (length xs) (xs ++ ys) ≡ xs
take-append [] [] = refl
take-append [] (y ∷ ys) = refl
take-append (x ∷ xs) ys = ap (λ l. x ∷ l) (take-append xs ys)

module _ {Style : Type 0} where
  -- The entry that an expansion leaves in the cache is the one it used, whatever the node becomes.
  entry-kept :
      (cache : List (ℕ × List ℕ)) (id : ℕ) (node later : Node Style)
      → (template_ids_of (template_ids_of cache id node).1 id later).0
        ≡ (template_ids_of cache id node).0
  unfolding template_ids_of
  entry-kept cache id node later = elim (Option-cases (lookup cache id)) [
    | inl e ↦ rw (template_ids_of, e, (==_iff id id).1 refl) refl
    | inr (ids, e) ↦ rw (template_ids_of, e, template_ids_of, e) refl
  ]

  for_node-expanded :
      (style : Style) (fuel : ℕ) (doc : ThtmlDocument Style) (for_id : ℕ) (items : List Text)
      (cache : List (ℕ × List ℕ)) (node : Node Style)
      → get doc.arena for_id ≡ some node
      → is_for node.tag ≡ true
      → expand_for_node style fuel doc for_id items cache ≡ (
        expand_templates style fuel doc for_id items (template_ids_of cache for_id node).0,
        (template_ids_of cache for_id node).1,
      )
  unfolding expand_for_node
  for_node-expanded style fuel doc for_id items cache node at loops =
      rw (expand_for_node, at, loops) refl

  module _ (doc : ThtmlDocument Style) (cache : List (ℕ × List ℕ)) (for_id : ℕ) (ids : List ℕ)
      (templates : Forest Style) (n : ℕ) (h : IsForNode doc cache for_id ids templates n) where
    abbrev cut : ThtmlDocument Style
    cut = record doc { arena = update doc.arena for_id (truncated (length ids)) }

    cut-Holds : Holds cut for_id ids templates no_trees n
    unfolding Keeps AreTrees
    cut-Holds = record {
      node = truncated (length ids) h.node;
      behind = [];
      at = get-update_self doc.arena for_id h.node (truncated (length ids)) h.at;
      loops = h.loops;
      children =
          ap (take (length ids)) h.children ∙ take-append ids h.behind ∙ sym (append-nil ids);
      grown = update-Grown doc.arena for_id n h.node (truncated (length ids)) h.at h.grown;
      templates_stand =
          AreTrees-Keeps templates doc.arena cut.arena (OtherThan for_id) ids
            (λ j m ne i.
              get-update_other doc.arena for_id j h.node (truncated (length ids)) h.at ne ∙ i)
            h.templates_stand;
      copies_stand = tt;
    }

    templates-refused :
        (style : Style) (fuel : ℕ) (items : List Text)
        → validate_all (validate_template_node fuel doc) ids ≡ err bindings_in_template
        → expand_templates style fuel doc for_id items ids ≡ err bindings_in_template
    unfolding expand_templates
    templates-refused style fuel items e = rw (expand_templates, e) refl

    templates-expanded :
        (style : Style) (fuel : ℕ) (items : List Text)
        → validate_all (validate_template_node fuel doc) ids ≡ ok tt
        → expand_templates style fuel doc for_id items ids
          ≡ expand_items style fuel for_id ids cut items
    unfolding expand_templates
    templates-expanded style fuel items e = rw (expand_templates, e) refl

    -- The expansion of a `for` node is refused if one of the nodes of its templates has a binding and the
    -- stack is as deep as the templates have nodes.
    expand_for_node-refuses :
        (style : Style) (fuel : ℕ) (items : List Text)
        → is_plain templates ≡ false
        → size templates ≤ fuel
        → (expand_for_node style fuel doc for_id items cache).0 ≡ err bindings_in_template
    unfolding validated
    expand_for_node-refuses style fuel items bound le =
        ap (λ (r : Result ExpandError (ThtmlDocument Style) × List (ℕ × List ℕ)). r.0)
          (for_node-expanded style fuel doc for_id items cache h.node h.at h.loops)
        ∙ ap (expand_templates style fuel doc for_id items) h.entry
        ∙ templates-refused style fuel items (
            validate_all-is_plain templates fuel doc (OtherThan for_id) ids h.templates_stand le
            ∙ ap validated bound)

    -- The expansion of a `for` node that is ready succeeds if its templates have no bindings. The
    -- children of the node are then the templates and, behind them, one copy of the templates per
    -- item, in the order of the items and with the item for the mark; what an earlier expansion
    -- left is gone. The node is ready for the next expansion. The stack must be as deep as the
    -- templates have nodes, and the arena, no slot of which is free, gets one slot per node of the
    -- copies, 2^32 in all at most.
    pub expand_for_node-IsForNode :
        (style : Style) (fuel : ℕ) (items : List Text)
        → is_plain templates ≡ true
        → size templates ≤ fuel
        → n + length items * size templates ≤ 2 ^ 32
        → (doc' : ThtmlDocument Style) × (cache' : List (ℕ × List ℕ)) × (expand_for_node style fuel
              doc for_id items cache
            ≡ (ok doc', cache'))
          × ChildrenAre doc' for_id (beside_all templates (filled_all style items templates))
          × IsForNode doc' cache' for_id ids templates (n + length items * size templates)
    unfolding validated beside_all
    expand_for_node-IsForNode style fuel items plain le room =
        let l =
          items-Leaves for_id ids templates style fuel items cut n no_trees le room cut-Holds in
        let e =
          ap (expand_templates style fuel doc for_id items) h.entry
          ∙ templates-expanded style fuel items (
              validate_all-is_plain templates fuel doc (OtherThan for_id) ids h.templates_stand le
              ∙ ap validated plain)
          ∙ l.result in
        let copies = filled_all style items templates in
        (
          l.doc,
          (template_ids_of cache for_id h.node).1,
          for_node-expanded style fuel doc for_id items cache h.node h.at h.loops
              ∙ ap (λ r. (r, (template_ids_of cache for_id h.node).1)) e,
          record {
            node = l.holds.node;
            at = l.holds.at;
            stand =
                subst
                  (λ ids. AreTrees l.doc.arena (OtherThan for_id) ids (beside_all templates copies))
                  (sym l.holds.children)
                  (AreTrees-beside templates l.doc.arena (OtherThan for_id) ids l.holds.behind
                    copies l.holds.templates_stand l.holds.copies_stand);
          },
          record {
            node = l.holds.node;
            behind = l.holds.behind;
            at = l.holds.at;
            loops = l.holds.loops;
            entry = entry-kept cache for_id h.node l.holds.node ∙ h.entry;
            children = l.holds.children;
            grown = l.holds.grown;
            templates_stand = l.holds.templates_stand;
          },
        )
