-- ===== src/Animation/Sync.antt =====
-- `sync_transitions` and `restore_baselines`: a style that moved from its baseline gets a transition.
use oxiterm.Common.{ℕ, ◌*◌, Bool, true, false, Option, none, some, List, [], ◌∷◌, ◌++◌, lookup}
use oxiterm.Common.Int.{ℤ}
use oxiterm.Style.Computed.{AnimatableProperty, TransitionSpec, ComputedStyle}
use oxiterm.Dom.{Node}
use oxiterm.Arena.{NodeArena, update}
use oxiterm.Document.{ThtmlDocument}
use oxiterm.Animation.{
  AnimationController, Launch, find_transition, start_all, insert_at, iter_from, props_to_check,
}
use oxiterm.Animation.Solvers.{Floats}
use oxiterm.Animation.Values.{
  ActiveTransition, StoredPropertyValues, no_values, sample, get_value, set_value, target_value,
  restored,
}

module _ {F : Type 0} (fl : Floats F) where
  -- `(prev_val - target).abs() > 0.001`
  abbrev pub moved : F → F → Bool
  moved prev target = fl.less (fl.lit 1 3) (fl.abs (fl.sub prev target))

  unfoldable pub get_current_in_flight_value :
      List (ActiveTransition F) → ℕ → AnimatableProperty → ℕ → Option F
  unfolding find_transition sample
  get_current_in_flight_value ts node_id prop now = elim (find_transition node_id prop ts) [
    | none ↦ none
    | some t ↦ some (sample fl t now).0
  ]

  launch_of : ℕ → AnimatableProperty → Option F → F → F → TransitionSpec F → Launch F
  launch_of node_id prop in_flight prev target spec = record {
    node_id = node_id;
    property = prop;
    start_value = elim in_flight [ none ↦ prev | some v ↦ v ];
    end_value = target;
    duration = spec.duration_ms * 1000000;
    delay = spec.delay_ms * 1000000;
    easing = spec.easing;
  }

  module _ (ts : List (ActiveTransition F)) (now : ℕ) (node_id : ℕ)
      (style : ComputedStyle F ℤ) where
    -- One turn of the inner loop, over the properties: the stored values and the new transitions.
    unfoldable pub check_property :
        TransitionSpec F
        → StoredPropertyValues F × List (Launch F)
        → AnimatableProperty
        → StoredPropertyValues F × List (Launch F)
    unfolding get_value set_value target_value get_current_in_flight_value launch_of
    check_property spec (stored, launches) prop = elim (target_value fl style prop) [
      | none ↦ (stored, launches)
      | some target ↦ elim (get_value fl stored prop) [
        | none ↦ (set_value fl stored prop (some target), launches)
        | some prev ↦ elim (moved prev target) [
          | false ↦ (stored, launches)
          | true ↦ (
            set_value fl stored prop (some target),
            launches
                ++ launch_of node_id prop (get_current_in_flight_value ts node_id prop now) prev
                    target spec
                  ∷ [],
          )
        ]
      ]
    ]

    unfoldable pub check_properties :
        TransitionSpec F
        → StoredPropertyValues F × List (Launch F)
        → List AnimatableProperty
        → StoredPropertyValues F × List (Launch F)
    unfolding check_property
    check_properties spec acc [] = acc
    check_properties spec acc (prop ∷ props) =
        check_properties spec (check_property spec acc prop) props

    -- The loop over the specifications.
    unfoldable pub check_specs :
        StoredPropertyValues F × List (Launch F)
        → List (TransitionSpec F)
        → StoredPropertyValues F × List (Launch F)
    unfolding check_properties props_to_check
    check_specs acc [] = acc
    check_specs acc (spec ∷ specs) =
        check_specs (check_properties spec acc (props_to_check spec.property)) specs

  -- `entry(node_id).or_default().clone()`
  abbrev pub stored_of : List (ℕ × StoredPropertyValues F) → ℕ → StoredPropertyValues F
  stored_of baselines node_id = elim (lookup baselines node_id) [ none ↦ no_values | some s ↦ s ]

  -- One turn of the outer loop, over the nodes, on the specifications of the node's style.
  unfoldable pub sync_node :
      List (ActiveTransition F)
      → ℕ
      → List (ℕ × StoredPropertyValues F) × List (Launch F)
      → ℕ
      → ComputedStyle F ℤ
      → List (TransitionSpec F)
      → List (ℕ × StoredPropertyValues F) × List (Launch F)
  unfolding check_specs insert_at
  sync_node ts now acc node_id style [] = acc
  sync_node ts now (baselines, launches) node_id style (spec ∷ specs) =
      let checked =
        check_specs ts now node_id style (stored_of baselines node_id, launches) (spec ∷ specs) in
      (insert_at baselines node_id checked.0, checked.1)

  unfoldable pub sync_nodes :
      List (ActiveTransition F)
      → ℕ
      → List (ℕ × StoredPropertyValues F) × List (Launch F)
      → List (ℕ × Node (ComputedStyle F ℤ))
      → List (ℕ × StoredPropertyValues F) × List (Launch F)
  unfolding sync_node
  sync_nodes ts now acc [] = acc
  sync_nodes ts now acc ((id, node) ∷ nodes) =
      sync_nodes ts now (sync_node ts now acc id node.style node.style.transitions) nodes

  -- What the loops over the nodes find: the baselines and the transitions to launch.
  unfoldable pub found :
      AnimationController F
      → ThtmlDocument (ComputedStyle F ℤ)
      → ℕ
      → List (ℕ × StoredPropertyValues F) × List (Launch F)
  unfolding sync_nodes iter_from
  found c doc now =
      sync_nodes c.active_transitions now (c.baseline_styles, []) (iter_from 0 doc.arena.nodes)

  unfoldable pub sync_transitions :
      AnimationController F
      → ThtmlDocument (ComputedStyle F ℤ)
      → ℕ
      → (ℕ → ℕ)
      → AnimationController F
  unfolding found start_all
  sync_transitions c doc now clock =
      start_all (record c { baseline_styles = (found c doc now).0 }) (found c doc now).1 clock 0

  abbrev pub restored_node :
      StoredPropertyValues F → Node (ComputedStyle F ℤ) → Node (ComputedStyle F ℤ)
  restored_node stored node = record node { style = restored fl stored node.style }

  unfoldable pub restore_all :
      List (ℕ × StoredPropertyValues F)
      → NodeArena (ComputedStyle F ℤ)
      → NodeArena (ComputedStyle F ℤ)
  unfolding update restored
  restore_all [] arena = arena
  restore_all ((node_id, stored) ∷ baselines) arena =
      restore_all baselines (update arena node_id (restored_node stored))

  unfoldable pub restore_baselines :
      AnimationController F → ThtmlDocument (ComputedStyle F ℤ) → ThtmlDocument (ComputedStyle F ℤ)
  unfolding restore_all
  restore_baselines c doc = record doc { arena = restore_all c.baseline_styles doc.arena }
