-- ===== src/Diagram/Mermaid.antt =====
-- oxiterm-renderer/src/diagram/mermaid.rs: the parser of flowcharts.
pub mod Valid
mod Tests
use oxiterm.Common.{
  ℕ, ◌+◌, ◌*◌, Bool, true, false, not, ◌||◌, Option, none, some, List, [], ◌∷◌, ◌++◌, ◌==◌, ltb,
  length, if◌then◌else◌,
}
use oxiterm.Common.Outcome.{Result, ok, err, ◌>>=◌}
use oxiterm.Common.Texts.{
  Text, codes, text_eq, starts_with, contains_text, split_once, split_text, before_last, split_if,
  trim, trim_matches, is_empty_text, byte_len, first_word,
}
use oxiterm.Diagram.{Direction, td, lr, DiagramNode, DiagramEdge, Graph, add_or_update_node}

pub data DiagramError : Type 0 where
  source_too_large : DiagramError
  unsupported : Text → DiagramError
  missing_header : DiagramError
  too_many_nodes : DiagramError
  too_many_edges : DiagramError

-- The label in brackets, up to the last closing one if there is one.
abbrev pub label_of : ℕ → Text → Text
unfolding before_last trim_matches
label_of end_char rest = elim (before_last end_char rest) [
  | some inner ↦ trim_matches b'"' inner
  | none ↦ trim_matches b'"' rest
]

unfoldable pub parse_node_spec : Text → Text × Text
unfolding trim split_once label_of
parse_node_spec s =
    let s = trim s in
    elim (split_once b'[' s) [
      | some (before, rest) ↦ (trim before, label_of b']' rest)
      | none ↦ elim (split_once b'(' s) [
        | some (before, rest) ↦ (trim before, label_of b')' rest)
        | none ↦ (s, s)
      ]
    ]

unfoldable pub parse_node_line : Text → List DiagramNode → List DiagramNode
unfolding parse_node_spec add_or_update_node
parse_node_line line nodes =
    let (id, label) = parse_node_spec line in
    if is_empty_text id then nodes else add_or_update_node nodes id label

-- What stands behind an arrow, and the label between bars if there is one.
abbrev pub right_and_label : Text → Text × Option Text
unfolding split_once trim
right_and_label right_raw = elim (split_once b'|' right_raw) [
  | none ↦ (right_raw, none)
  | some (_, behind) ↦ elim (split_once b'|' behind) [
    | none ↦ (right_raw, none)
    | some (lbl, right) ↦ (right, some (trim lbl))
  ]
]

-- The two sides of an arrow and the label.
unfoldable pub edge_parts : Text → Option (Text × Text × Option Text)
unfolding split_text right_and_label
edge_parts line = elim (split_text (codes "-->") line) [
  | some (left, right_raw) ↦
      let (right, label) = right_and_label right_raw in some (left, right, label)
  | none ↦ elim (split_text (codes "->") line) [
    | some (left, right_raw) ↦ some (left, right_raw, none)
    | none ↦ none
  ]
]

unfoldable pub parse_edge_line :
    Text → List DiagramNode → List DiagramEdge → List DiagramNode × List DiagramEdge
unfolding edge_parts parse_node_spec add_or_update_node
parse_edge_line line nodes edges = elim (edge_parts line) [
  | none ↦ (nodes, edges)
  | some (left_part, right_part, edge_label) ↦
      let (from_id, from_label) = parse_node_spec left_part in
      let (to_id, to_label) = parse_node_spec right_part in
      (
        add_or_update_node (add_or_update_node nodes from_id from_label) to_id to_label,
        edges ++ record { from = from_id; to = to_id; label = edge_label } ∷ [],
      )
]

-- The variables of the loop over the lines.
pub record Parsing : Type 0 where
  pub direction : Direction
  pub nodes : List DiagramNode
  pub edges : List DiagramEdge
  pub header_found : Bool

abbrev pub within_limits : Parsing → Result DiagramError Parsing
within_limits p =
    if ltb 256 (length p.nodes)
    then err too_many_nodes
    else if ltb 512 (length p.edges)
    then err too_many_edges
    else ok p

abbrev pub with_edge : Parsing → List DiagramNode × List DiagramEdge → Parsing
with_edge p (nodes, edges) = record p { nodes = nodes; edges = edges }

abbrev pub header_line : Parsing → Text → Result DiagramError Parsing
unfolding starts_with contains_text first_word
header_line p line =
    if starts_with line (codes "flowchart") || starts_with line (codes "graph")
    then ok (record p {
      direction = if contains_text line (codes "LR") then lr else td;
      header_found = true;
    })
    else err (unsupported (elim (first_word line) [ some w ↦ w | none ↦ line ]))

abbrev pub body_line : Parsing → Text → Result DiagramError Parsing
unfolding contains_text parse_edge_line parse_node_line
body_line p line =
    if contains_text line (codes "-->") || contains_text line (codes "->")
    then within_limits (with_edge p (parse_edge_line line p.nodes p.edges))
    else within_limits (record p { nodes = parse_node_line line p.nodes })

unfoldable pub parse_line : Parsing → Text → Result DiagramError Parsing
unfolding trim starts_with header_line body_line
parse_line p raw_line =
    let line = trim raw_line in
    if is_empty_text line || starts_with line (codes "%%")
    then ok p
    else if p.header_found
    then body_line p line
    else header_line p line

unfoldable pub parse_lines : Parsing → List Text → Result DiagramError Parsing
unfolding parse_line
parse_lines p [] = ok p
parse_lines p (raw_line ∷ raw_lines) = elim (parse_line p raw_line) [
  | err e ↦ err e
  | ok q ↦ parse_lines q raw_lines
]

abbrev pub start : Parsing
start = record { direction = td; nodes = []; edges = []; header_found = false }

abbrev pub finish : Parsing → Result DiagramError Graph
finish p =
    if p.header_found
    then ok (record { direction = p.direction; nodes = p.nodes; edges = p.edges })
    else err missing_header

-- What `lines` drops, carriage returns and a last empty line, the loop drops too.
unfoldable pub parse_mermaid : Text → Result DiagramError Graph
unfolding byte_len split_if parse_lines
parse_mermaid source =
    if ltb (64 * 1024) (byte_len source)
    then err source_too_large
    else elim (parse_lines start (split_if (λ c. c == 0xa) source)) [
      | err e ↦ err e
      | ok p ↦ finish p
    ]
