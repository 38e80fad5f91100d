-- ===== src/Diagram/Mermaid/Tests.antt =====
-- A flowchart with a label on a node and one on an edge, and a diagram that is refused.
use oxiterm.Common.{◌≡◌, refl, some, [], ◌∷◌, ◌++◌}
use oxiterm.Common.Outcome.{ok, err}
use oxiterm.Common.Texts.{
  Text, codes, text_eq, starts_with, contains_text, split_once, split_text, before_last, split_if,
  trim, trim_matches, byte_len, first_word,
}
use oxiterm.Diagram.{lr, Graph, add_or_update_node}
use oxiterm.Diagram.Mermaid.{unsupported, parse_mermaid, parse_line}
use oxiterm.Diagram.Mermaid.Valid.{IsValid, parse_mermaid-IsValid}

abbrev flowchart : Text
flowchart =
    codes "flowchart LR"
    ++ 0xa ∷ codes " A[\"Start\"] -->|go| B"
    ++ 0xa ∷ codes "B(End)"
    ++ 0xa ∷ []

abbrev graph : Graph
graph = record {
  direction = lr;
  nodes =
      record { id = codes "A"; label = codes "Start" }
      ∷ record { id = codes "B"; label = codes "End" }
      ∷ [];
  edges = record { from = codes "A"; to = codes "B"; label = some (codes "go") } ∷ [];
}

flowchart_parses : parse_mermaid flowchart ≡ ok graph
unfolding parse_mermaid byte_len split_if parse_line trim starts_with contains_text split_once
    split_text before_last trim_matches text_eq add_or_update_node
flowchart_parses = refl

sequence_refused :
    parse_mermaid (codes "sequenceDiagram x") ≡ err (unsupported (codes "sequenceDiagram"))
unfolding parse_mermaid byte_len split_if parse_line trim starts_with first_word
sequence_refused = refl

parse_mermaid-IsValid_example : IsValid graph.nodes graph.edges
parse_mermaid-IsValid_example = parse_mermaid-IsValid flowchart graph flowchart_parses
