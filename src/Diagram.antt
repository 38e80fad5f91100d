-- ===== src/Diagram.antt =====
-- oxiterm-renderer/src/diagram/mermaid.rs: the graph of a diagram, and how its nodes are added.
pub mod Mermaid
pub mod Layout
pub mod Grid
use oxiterm.Common.{
  ℕ, suc, ◌+◌, Bool, true, false, not, ◌&&◌, Option, none, some, List, [], ◌∷◌, if◌then◌else◌,
}
use oxiterm.Common.Texts.{Text, text_eq}

pub data Direction : Type 0 where
  td : Direction
  lr : Direction

pub record DiagramNode : Type 0 where
  pub id : Text
  pub label : Text

pub record DiagramEdge : Type 0 where
  pub from : Text
  pub to : Text
  pub label : Option Text

pub record Graph : Type 0 where
  pub direction : Direction
  pub nodes : List DiagramNode
  pub edges : List DiagramEdge

unfoldable pub find_id : List DiagramNode → Text → Option DiagramNode
unfolding text_eq
find_id [] id = none
find_id (n ∷ nodes) id = if text_eq n.id id then some n else find_id nodes id

abbrev pub get_node : Graph → Text → Option DiagramNode
unfolding find_id
get_node g id = find_id g.nodes id

unfoldable pub count_to : List DiagramEdge → Text → ℕ
unfolding text_eq
count_to [] id = 0
count_to (e ∷ edges) id = let rest = count_to edges id in if text_eq e.to id then suc rest else rest

abbrev pub in_degree : Graph → Text → ℕ
unfolding count_to
in_degree g id = count_to g.edges id

-- A node of a new id comes last. A label that is still the id gives way to a proper one.
unfoldable pub add_or_update_node : List DiagramNode → Text → Text → List DiagramNode
unfolding text_eq
add_or_update_node [] id label = record { id = id; label = label } ∷ []
add_or_update_node (n ∷ nodes) id label =
    let later = add_or_update_node nodes id label in
    if text_eq n.id id
    then (if text_eq n.label n.id && not (text_eq label id)
        then record { id = n.id; label = label } ∷ nodes
        else n ∷ nodes)
    else n ∷ later
