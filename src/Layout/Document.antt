-- ===== src/Layout/Document.antt =====
-- oxiterm-renderer/src/layout/types.rs: what a layout says of a document.
use oxiterm.Common.{ℕ, ◌-◌, ◌/◌, Bool, true, false, none, some, [], ◌∷◌, lookup, ltb, if◌then◌else◌}
use oxiterm.Dom.{NodeTag}
use oxiterm.Arena.{get}
use oxiterm.Document.{ThtmlDocument}
use oxiterm.Layout.{LayoutResult}

-- Half of what the view has more than the content.
abbrev half_over : ℕ → ℕ → ℕ
half_over view content = if ltb content view then (view - content) / 2 else 0

module _ {Style : Type 0} where
  -- The first child of the root, or the root.
  centered_node : ThtmlDocument Style → ℕ
  centered_node doc = elim (get doc.arena doc.root) [
    | none ↦ doc.root
    | some node ↦ elim node.children [ [] ↦ doc.root | child ∷ _ ↦ child ]
  ]

  pub get_centering_offset : LayoutResult → ThtmlDocument Style → ℕ → ℕ → ℕ × ℕ
  unfolding centered_node
  get_centering_offset result doc view_w view_h = (
    elim (lookup result.nodes (centered_node doc)) [
      | none ↦ 0
      | some rect ↦ half_over view_w rect.width
    ],
    half_over view_h result.total_height,
  )

  -- `HitTester::is_interactive`
  pub is_interactive : ℕ → ThtmlDocument Style → Bool
  is_interactive id doc = elim (get doc.arena id) [
    | none ↦ false
    | some node ↦ elim node.tag [
      | NodeTag.button ↦ true
      | NodeTag.input ↦ true
      | _ ↦ elim node.attrs.event_htmx [ none ↦ false | some _ ↦ true ]
    ]
  ]
