-- ===== src/Animation/Tick.antt =====
-- `tick`: the running transitions write their values, and those that have finished are removed.
use oxiterm.Common.{ℕ, zero, suc, Bool, true, false, ◌||◌, none, some, List, length, get_elem?}
use oxiterm.Common.Int.{ℤ}
use oxiterm.Style.Computed.{AnimatableProperty, ComputedStyle}
use oxiterm.Arena.{get, update}
use oxiterm.Document.{ThtmlDocument, mark_dirty}
use oxiterm.Animation.{AnimationController, swap_remove}
use oxiterm.Animation.Solvers.{Floats}
use oxiterm.Animation.Values.{ActiveTransition, sample, write_value}

module _ {F : Type 0} (fl : Floats F) where
  abbrev pub Document : Type 0
  Document = ThtmlDocument (ComputedStyle F ℤ)

  -- The write of a value, and whether it changed the style.
  unfoldable pub write_to : Document → ℕ → AnimatableProperty → F → Document × Bool
  unfolding get update mark_dirty write_value
  write_to doc node_id prop val = elim (get doc.arena node_id) [
    | none ↦ (doc, false)
    | some node ↦ elim (write_value fl prop val node.style).1 [
      | false ↦ (doc, false)
      | true ↦ (
        mark_dirty
            (record doc {
              arena =
                  update doc.arena node_id
                    (λ n. record n { style = (write_value fl prop val n.style).0 });
            })
            node_id,
        true,
      )
    ]
  ]

  -- The loop, with a bound on its turns: the transitions that are left, the document and `changed`.
  unfoldable pub tick_from :
      ℕ
      → ℕ
      → List (ActiveTransition F)
      → ℕ
      → Document
      → Bool
      → List (ActiveTransition F) × (Document × Bool)
  unfolding sample write_to swap_remove
  tick_from zero now ts i doc changed = (ts, (doc, changed))
  tick_from (suc turns) now ts i doc changed = elim (get_elem? ts i) [
    | none ↦ (ts, (doc, changed))
    | some t ↦
        let (val, finished) = sample fl t now in
        let (doc, modified) = write_to doc t.node_id t.property val in
        elim finished [
          | true ↦ tick_from turns now (swap_remove ts i) i doc (modified || changed)
          | false ↦ tick_from turns now ts (suc i) doc (modified || changed)
        ]
  ]

  -- Each turn brings the end of the list one closer.
  unfoldable pub tick :
      AnimationController F → Document → ℕ → AnimationController F × (Document × Bool)
  unfolding tick_from
  tick c doc now =
      let (ts, done) =
        tick_from (length c.active_transitions) now c.active_transitions 0 doc false in
      (record c { active_transitions = ts }, done)
