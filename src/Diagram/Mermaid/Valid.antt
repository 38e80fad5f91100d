-- ===== src/Diagram/Mermaid/Valid.antt =====
-- What holds of each graph that the parser gives.
use oxiterm.Common.{
  ◌*◌, ◌≤◌, ◌≡◌, refl, Bool, true, false, not, ◌&&◌, ◌||◌, Option, none, some, List, [], ◌∷◌, ◌++◌,
  arith, Bool-cases, inl, inr, ltb, ltb→ge, length, ◌==◌,
}
use oxiterm.Common.Outcome.{ok, Gives, ok-Gives, err-Gives, if_Gives, then_Gives}
use oxiterm.Common.Texts.{
  Text, codes, text_eq, text_eq_iff, text_eq_self, is_empty_text, trim, split_if, byte_len,
  starts_with, contains_text,
}
use oxiterm.Diagram.{DiagramNode, DiagramEdge, Graph, add_or_update_node}
use oxiterm.Diagram.Mermaid.{
  source_too_large, missing_header, too_many_nodes, too_many_edges, finish, Parsing,
  parse_node_spec, parse_node_line, edge_parts, parse_edge_line, within_limits, with_edge,
  header_line, body_line, parse_line, parse_lines, parse_mermaid, start,
}

unfoldable pub has_id : List DiagramNode → Text → Bool
has_id [] id = false
has_id (n ∷ nodes) id = text_eq n.id id || has_id nodes id

unfoldable pub distinct : List DiagramNode → Bool
unfolding has_id
distinct [] = true
distinct (n ∷ nodes) = not (has_id nodes n.id) && distinct nodes

-- Whether both ends of each edge are nodes.
unfoldable pub all_in : List DiagramNode → List DiagramEdge → Bool
unfolding has_id
all_in nodes [] = true
all_in nodes (e ∷ edges) = (has_id nodes e.from && has_id nodes e.to) && all_in nodes edges

has_id-add :
    (nodes : List DiagramNode) (id label k : Text)
    → has_id (add_or_update_node nodes id label) k ≡ (text_eq id k || has_id nodes k)
unfolding has_id add_or_update_node
has_id-add [] id label k = ground arith
has_id-add (n ∷ nodes) id label k =
    ground (
      arith,
      text_eq_iff n.id id,
      text_eq_iff n.id k,
      text_eq_iff id k,
      has_id-add nodes id label k,
    )

distinct-add :
    (nodes : List DiagramNode) (id label : Text)
    → distinct nodes ≡ true
    → distinct (add_or_update_node nodes id label) ≡ true
unfolding distinct add_or_update_node
distinct-add [] id label h = refl
distinct-add (n ∷ nodes) id label h = ground (
  arith,
  text_eq_iff n.id id,
  text_eq_iff id n.id,
  has_id-add nodes id label n.id,
  distinct-add nodes id label,
)

all_in-add :
    (nodes : List DiagramNode) (edges : List DiagramEdge) (id label : Text)
    → all_in nodes edges ≡ true
    → all_in (add_or_update_node nodes id label) edges ≡ true
unfolding all_in
all_in-add nodes [] id label h = refl
all_in-add nodes (e ∷ edges) id label h = ground (
  arith,
  has_id-add nodes id label e.from,
  has_id-add nodes id label e.to,
  all_in-add nodes edges id label,
)

all_in-append :
    (nodes : List DiagramNode) (edges : List DiagramEdge) (e : DiagramEdge)
    → all_in nodes edges ≡ true
    → has_id nodes e.from ≡ true
    → has_id nodes e.to ≡ true
    → all_in nodes (edges ++ e ∷ []) ≡ true
unfolding all_in
all_in-append nodes [] e h f t = ground arith
all_in-append nodes (d ∷ edges) e h f t = ground (arith, all_in-append nodes edges e)

-- No two nodes have one id, and both ends of each edge are nodes.
pub record IsSound (nodes : List DiagramNode) (edges : List DiagramEdge) : Type 0 where
  pub ids : distinct nodes ≡ true
  pub ends : all_in nodes edges ≡ true

IsSound-add :
    (nodes : List DiagramNode) (edges : List DiagramEdge) (id label : Text)
    → IsSound nodes edges
    → IsSound (add_or_update_node nodes id label) edges
IsSound-add nodes edges id label h = record {
  ids = distinct-add nodes id label h.ids;
  ends = all_in-add nodes edges id label h.ends;
}

node_line-IsSound :
    (line : Text) (nodes : List DiagramNode) (edges : List DiagramEdge)
    → IsSound nodes edges
    → IsSound (parse_node_line line nodes) edges
unfolding parse_node_line
node_line-IsSound line nodes edges h =
    let (id, label) = parse_node_spec line in
    elim (Bool-cases (is_empty_text id)) [
      | inl e ↦ rw e h
      | inr e ↦ rw e (IsSound-add nodes edges id label h)
    ]

IsSound-edge :
    (nodes : List DiagramNode) (edges : List DiagramEdge) (from from_label to to_label : Text)
    (label : Option Text)
    → IsSound nodes edges
    → IsSound
        (add_or_update_node (add_or_update_node nodes from from_label) to to_label)
        (edges ++ record { from = from; to = to; label = label } ∷ [])
IsSound-edge nodes edges from from_label to to_label label h =
    let once = add_or_update_node nodes from from_label in
    let twice = add_or_update_node once to to_label in
    let s = IsSound-add once edges to to_label (IsSound-add nodes edges from from_label h) in
    record {
      ids = s.ids;
      ends =
          all_in-append twice edges _ s.ends
            (ground (
              arith,
              has_id-add nodes from from_label from,
              has_id-add once to to_label from,
              text_eq_self from,
            ))
            (ground (arith, has_id-add once to to_label to, text_eq_self to));
    }

edge_line-IsSound :
    (parts : Option (Text × Text × Option Text)) (line : Text) (nodes : List DiagramNode)
    (edges : List DiagramEdge)
    → edge_parts line ≡ parts
    → IsSound nodes edges
    → IsSound (parse_edge_line line nodes edges).0 (parse_edge_line line nodes edges).1
unfolding parse_edge_line
edge_line-IsSound none line nodes edges e h = rw (parse_edge_line, e) h
edge_line-IsSound (some (left, right, label)) line nodes edges e h =
    let (from, from_label) = parse_node_spec left in
    let (to, to_label) = parse_node_spec right in
    rw (parse_edge_line, e) (IsSound-edge nodes edges from from_label to to_label label h)

-- Distinct ids, edges between nodes, and no more nodes and edges than the limits.
pub record IsValid (nodes : List DiagramNode) (edges : List DiagramEdge) : Type 0 where
  pub sound : IsSound nodes edges
  pub node_limit : length nodes ≤ 256
  pub edge_limit : length edges ≤ 512

IsValidParsing : Parsing → Type 0
IsValidParsing p = IsValid p.nodes p.edges

within_limits-GivesValid :
    (p : Parsing) → IsSound p.nodes p.edges → Gives IsValidParsing (within_limits p)
unfolding IsValidParsing
within_limits-GivesValid p s = elim (Bool-cases (ltb 256 (length p.nodes))) [
  | inl e ↦ rw e (err-Gives IsValidParsing too_many_nodes)
  | inr e ↦ elim (Bool-cases (ltb 512 (length p.edges))) [
    | inl f ↦ rw (e, f) (err-Gives IsValidParsing too_many_edges)
    | inr f ↦
        rw (e, f)
          (ok-Gives IsValidParsing p
            (record { sound = s; node_limit = ltb→ge _ _ e; edge_limit = ltb→ge _ _ f }))
  ]
]

line-GivesValid :
    (p : Parsing) (raw_line : Text)
    → IsValid p.nodes p.edges
    → Gives IsValidParsing (parse_line p raw_line)
unfolding parse_line body_line header_line IsValidParsing
line-GivesValid p raw_line v =
    let line = trim raw_line in
    if_Gives IsValidParsing (is_empty_text line || starts_with line (codes "%%")) (ok p) _
      (ok-Gives IsValidParsing p v)
      (if_Gives IsValidParsing p.header_found (body_line p line) (header_line p line)
        (if_Gives IsValidParsing
          (contains_text line (codes "-->") || contains_text line (codes "->")) _ _
          (within_limits-GivesValid (with_edge p (parse_edge_line line p.nodes p.edges))
            (edge_line-IsSound (edge_parts line) line p.nodes p.edges refl v.sound))
          (within_limits-GivesValid (record p { nodes = parse_node_line line p.nodes })
            (node_line-IsSound line p.nodes p.edges v.sound)))
        (if_Gives IsValidParsing
          (starts_with line (codes "flowchart") || starts_with line (codes "graph")) _ _
          (ok-Gives IsValidParsing _ v) (err-Gives IsValidParsing _)))

lines-GivesValid :
    (raw_lines : List Text) (p : Parsing)
    → IsValidParsing p
    → Gives IsValidParsing (parse_lines p raw_lines)
unfolding parse_lines IsValidParsing
lines-GivesValid [] p v = ok-Gives IsValidParsing p v
lines-GivesValid (raw_line ∷ raw_lines) p v =
    then_Gives IsValidParsing IsValidParsing (parse_line p raw_line) (λ q. parse_lines q raw_lines)
      (line-GivesValid p raw_line v) (λ q w. lines-GivesValid raw_lines q w)

start-IsValid : IsValidParsing start
unfolding IsValidParsing distinct all_in
start-IsValid = record {
  sound = record { ids = refl; ends = refl };
  node_limit = omega arith;
  edge_limit = omega arith;
}

IsValidGraph : Graph → Type 0
IsValidGraph g = IsValid g.nodes g.edges

finish-GivesValid : (p : Parsing) → IsValidParsing p → Gives IsValidGraph (finish p)
unfolding IsValidParsing IsValidGraph
finish-GivesValid p v =
    if_Gives IsValidGraph p.header_found _ _ (ok-Gives IsValidGraph _ v)
      (err-Gives IsValidGraph missing_header)

-- In a graph that the parser gives no two nodes have one id, both ends of each edge are nodes, and
-- there are at most 256 nodes and 512 edges.
pub parse_mermaid-IsValid :
    (source : Text) (g : Graph) → parse_mermaid source ≡ ok g → IsValid g.nodes g.edges
unfolding parse_mermaid IsValidGraph
parse_mermaid-IsValid source g =
    (if_Gives IsValidGraph (ltb (64 * 1024) (byte_len source)) _ _
        (err-Gives IsValidGraph source_too_large)
        (then_Gives IsValidParsing IsValidGraph
          (parse_lines start (split_if (λ c. c == 0xa) source)) finish
          (lines-GivesValid (split_if (λ c. c == 0xa) source) start start-IsValid)
          finish-GivesValid)).gives
      g
