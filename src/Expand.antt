-- ===== src/Expand.antt =====
-- oxiterm-server/src/expand.rs: the expansion of a `for` node, which appends one copy of its
-- templates per item of a list. The recursions over the nodes are on fuel, which stands for the
-- stack; a panic is an error of its own. The errors of the source come before the first change of the
-- document, which then stays as it is. The style of a new node is a parameter.
pub mod Filled
pub mod Clones
pub mod Rounds
pub mod Ready
mod Tests
use oxiterm.Common.{
  ℕ, zero, suc, ◌-◌, Bool, true, false, ◌||◌, Option, none, some, List, [], ◌∷◌, ◌++◌, length,
  lookup, take, if◌then◌else◌,
}
use oxiterm.Common.Outcome.{Result, ok, err}
use oxiterm.Common.Texts.{codes, starts_with, text_len}
use oxiterm.Dom.{NodeTag, Text, Node, new_node}
use oxiterm.Arena.{alloc, get, update}
use oxiterm.Document.{ThtmlDocument}

pub data ExpandError : Type 0 where
  for_node_not_found not_a_for_node node_not_found bindings_in_template : ExpandError
  arena_panic too_deep : ExpandError

-- `str::replace` with a pattern that is not empty; the first number counts the characters that an
-- occurrence still covers.
replace_from : ℕ → Text → Text → Text → Text
replace_from covered pattern to [] = []
replace_from (suc covered) pattern to (c ∷ s) = replace_from covered pattern to s
replace_from zero pattern to (c ∷ s) = elim (starts_with (c ∷ s) pattern) [
  | true ↦ to ++ replace_from (text_len pattern - 1) pattern to s
  | false ↦ c ∷ replace_from 0 pattern to s
]

unfoldable pub replace : Text → Text → Text → Text
unfolding replace_from starts_with text_len
replace pattern to s = replace_from 0 pattern to s

abbrev item_mark : Text
item_mark = codes "{item}"

unfoldable pub replace_item : Text → Option Text → Option Text
unfolding replace
replace_item item_val none = none
replace_item item_val (some t) = some (replace item_mark item_val t)

abbrev pub is_some : {A : Type 0} → Option A → Bool
is_some none = false
is_some (some a) = true

abbrev pub is_for : NodeTag → Bool
is_for NodeTag.for_loop = true
is_for _ = false

-- The loop over some nodes, by what validates one.
unfoldable pub validate_all :
    (ℕ → Result ExpandError (Unit {0})) → List ℕ → Result ExpandError (Unit {0})
validate_all validate [] = ok tt
validate_all validate (id ∷ ids) = elim (validate id) [
  | err e ↦ err e
  | ok _ ↦ validate_all validate ids
]

module _ {Style : Type 0} where
  abbrev pub has_bindings : Node Style → Bool
  has_bindings node =
      is_some node.attrs.bind_state
      || (is_some node.attrs.bind_value || is_some node.attrs.event_htmx)

  unfoldable pub validate_template_node :
      ℕ → ThtmlDocument Style → ℕ → Result ExpandError (Unit {0})
  unfolding validate_all get
  validate_template_node zero doc node_id = err too_deep
  validate_template_node (suc fuel) doc node_id = elim (get doc.arena node_id) [
    | none ↦ err node_not_found
    | some node ↦ elim (has_bindings node) [
      | true ↦ err bindings_in_template
      | false ↦ validate_all (validate_template_node fuel doc) node.children
    ]
  ]

  -- The loop over the children of a node, by what clones one.
  unfoldable pub clone_all :
      (ThtmlDocument Style → ℕ → Result ExpandError (ℕ × ThtmlDocument Style))
      → ThtmlDocument Style
      → List ℕ
      → Result ExpandError (List ℕ × ThtmlDocument Style)
  clone_all clone doc [] = ok ([], doc)
  clone_all clone doc (cid ∷ child_ids) = elim (clone doc cid) [
    | err e ↦ err e
    | ok (new_child, doc) ↦ elim (clone_all clone doc child_ids) [
      | err e ↦ err e
      | ok (new_children, doc) ↦ ok (new_child ∷ new_children, doc)
    ]
  ]

  -- The clone of a node before it gets its children.
  abbrev pub filled_node : Style → Text → Node Style → Node Style
  filled_node style item_val src = record (new_node style src.tag) {
    attrs = src.attrs;
    text_content = replace_item item_val src.text_content;
  }

  abbrev pub with_children : List ℕ → Node Style → Node Style
  with_children ids node = record node { children = ids }

  -- `get_mut(new_id).unwrap().children = new_children`
  unfoldable pub set_children :
      ThtmlDocument Style → ℕ → List ℕ → Result ExpandError (ThtmlDocument Style)
  unfolding get update
  set_children doc id ids = elim (get doc.arena id) [
    | none ↦ err arena_panic
    | some node ↦ ok (record doc { arena = update doc.arena id (with_children ids) })
  ]

  unfoldable pub clone_node_replacing_item :
      Style → ℕ → Text → ThtmlDocument Style → ℕ → Result ExpandError (ℕ × ThtmlDocument Style)
  unfolding clone_all set_children get alloc replace_item
  clone_node_replacing_item style zero item_val doc src_id = err too_deep
  clone_node_replacing_item style (suc fuel) item_val doc src_id = elim (get doc.arena src_id) [
    | none ↦ err arena_panic
    | some src ↦ elim (alloc doc.arena (filled_node style item_val src)) [
      | none ↦ err arena_panic
      | some (new_id, arena) ↦
          elim (clone_all (clone_node_replacing_item style fuel item_val)
            (record doc { arena = arena }) src.children) [
              | err e ↦ err e
              | ok (new_children, doc) ↦ elim (set_children doc new_id new_children) [
                | err e ↦ err e
                | ok doc ↦ ok (new_id, doc)
              ]
            ]
    ]
  ]

  -- `get_mut(for_node_id).unwrap().children.push(new_id)`
  abbrev pub push_child : ℕ → Node Style → Node Style
  push_child id node = record node { children = node.children ++ id ∷ [] }

  unfoldable pub push_clone : ThtmlDocument Style → ℕ → ℕ → Result ExpandError (ThtmlDocument Style)
  unfolding get update
  push_clone doc for_node_id new_id = elim (get doc.arena for_node_id) [
    | none ↦ err arena_panic
    | some node ↦ ok (record doc { arena = update doc.arena for_node_id (push_child new_id) })
  ]

  -- The inner loop, over the templates.
  unfoldable pub expand_item :
      (ThtmlDocument Style → ℕ → Result ExpandError (ℕ × ThtmlDocument Style))
      → ℕ
      → ThtmlDocument Style
      → List ℕ
      → Result ExpandError (ThtmlDocument Style)
  unfolding push_clone
  expand_item clone for_node_id doc [] = ok doc
  expand_item clone for_node_id doc (tmpl_id ∷ template_ids) = elim (clone doc tmpl_id) [
    | err e ↦ err e
    | ok (new_id, doc) ↦ elim (push_clone doc for_node_id new_id) [
      | err e ↦ err e
      | ok doc ↦ expand_item clone for_node_id doc template_ids
    ]
  ]

  -- The outer loop, over the items.
  unfoldable pub expand_items :
      Style
      → ℕ
      → ℕ
      → List ℕ
      → ThtmlDocument Style
      → List Text
      → Result ExpandError (ThtmlDocument Style)
  unfolding expand_item clone_node_replacing_item
  expand_items style fuel for_node_id template_ids doc [] = ok doc
  expand_items style fuel for_node_id template_ids doc (item ∷ items) =
      elim (expand_item (clone_node_replacing_item style fuel item) for_node_id doc template_ids) [
        | err e ↦ err e
        | ok doc ↦ expand_items style fuel for_node_id template_ids doc items
      ]

  -- `cache.entry(for_node_id).or_insert_with(..)`: the entry, and the cache that has it.
  unfoldable pub template_ids_of : List (ℕ × List ℕ) → ℕ → Node Style → List ℕ × List (ℕ × List ℕ)
  template_ids_of cache for_node_id node = elim (lookup cache for_node_id) [
    | none ↦ (node.children, (for_node_id, node.children) ∷ cache)
    | some ids ↦ (ids, cache)
  ]

  abbrev pub truncated : ℕ → Node Style → Node Style
  truncated n node = record node { children = take n node.children }

  -- What follows the look into the cache.
  unfoldable pub expand_templates :
      Style
      → ℕ
      → ThtmlDocument Style
      → ℕ
      → List Text
      → List ℕ
      → Result ExpandError (ThtmlDocument Style)
  unfolding validate_all validate_template_node update expand_items
  expand_templates style fuel doc for_node_id items template_ids =
      elim (validate_all (validate_template_node fuel doc) template_ids) [
        | err e ↦ err e
        | ok _ ↦
            expand_items style fuel for_node_id template_ids
              (record doc {
                arena = update doc.arena for_node_id (truncated (length template_ids));
              })
              items
      ]

  -- The result of the call, and the cache that it leaves.
  unfoldable pub expand_for_node :
      Style
      → ℕ
      → ThtmlDocument Style
      → ℕ
      → List Text
      → List (ℕ × List ℕ)
      → Result ExpandError (ThtmlDocument Style) × List (ℕ × List ℕ)
  unfolding get template_ids_of expand_templates
  expand_for_node style fuel doc for_node_id items cache = elim (get doc.arena for_node_id) [
    | none ↦ (err for_node_not_found, cache)
    | some node ↦ elim (is_for node.tag) [
      | false ↦ (err not_a_for_node, cache)
      | true ↦
          let entry = template_ids_of cache for_node_id node in
          (expand_templates style fuel doc for_node_id items entry.0, entry.1)
    ]
  ]
