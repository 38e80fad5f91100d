-- ===== src/Animation/Tests.antt =====
-- A box that moves.
use oxiterm.Common.{ℕ, ◌≡◌, refl, sym, ap, true, Option, none, some, List, [], ◌∷◌, All, arith}
use mathlib.Core.List.{Perm}
use oxiterm.Common.Int.{ℤ, pos, negsuc}
use oxiterm.Style.{reset}
use oxiterm.Style.Computed.{
  AnimatableProperty, Easing, ComputedStyle, FlexDirection, AlignItems, JustifyContent, WrapMode,
  Position,
}
use oxiterm.Dom.{NodeTag, Node, new_node}
use oxiterm.Arena.{get, update}
use oxiterm.Document.{ThtmlDocument, mark_dirty, contains_id}
use oxiterm.Animation.{
  AnimationController, new, retain, iter_from, cancel_property, swap_remove, insert_at, is_of,
  find_transition, discriminant, props_to_check,
}
use oxiterm.Animation.Values.{
  sample, evaluate_easing, get_value, set_value, target_value, write_value, restored,
}
use oxiterm.Animation.Sync.{sync_transitions, restore_baselines}
use oxiterm.Animation.Tick.{tick, tick_from, write_to}
use oxiterm.Animation.Left.{is_running, tick-Perm}
use oxiterm.Animation.Settled.{InRange}
use oxiterm.Animation.Unique.{
  Operation, ticked, synced, node_cancelled, IsUnique, run, run-new-IsUnique,
}
use oxiterm.Animation.Whole.{nat_diff, int_sub, whole, whole-FloatLaws}
use oxiterm.Animation.Quiet.{sync_transitions-quiet}

abbrev style_at : Option ℕ → Option ℤ → ComputedStyle ℤ ℤ
style_at width left = record {
  fg = reset;
  bg = reset;
  width = width;
  height = none;
  flex_direction = FlexDirection.column;
  align_items = AlignItems.flex_start;
  justify_content = JustifyContent.flex_start;
  padding = record { top = 0; right = 0; bottom = 0; left = 0 };
  margin = record { top = 0; right = 0; bottom = 0; left = 0 };
  border = none;
  flex = none;
  wrap = WrapMode.no_wrap;
  position = Position.static;
  top = none;
  right = none;
  bottom = none;
  left = left;
  z_index = none;
  transitions =
      record {
        property = AnimatableProperty.all;
        duration_ms = 2000;
        delay_ms = 0;
        easing = Easing.linear;
      }
      ∷ [];
  opacity = none;
}

abbrev page : Option ℕ → Option ℤ → ThtmlDocument (ComputedStyle ℤ ℤ)
page width left = record {
  arena = record {
    nodes = none ∷ some (new_node (style_at width left) NodeTag.box) ∷ [];
    free_list = 0 ∷ [];
  };
  root = 1;
  dirty_nodes = [];
}

abbrev clock : ℕ → ℕ
clock k = 0

-- The box has a baseline, and moves then.
abbrev first_seen : AnimationController ℤ
first_seen = record {
  active_transitions = [];
  baseline_styles =
      (
        1,
        record {
          width = some 10;
          height = none;
          top = none;
          left = some (negsuc 2);
          right = none;
          bottom = none;
          opacity = none;
        },
      )
      ∷ [];
}

abbrev moving : AnimationController ℤ
moving = record {
  active_transitions =
      record {
        node_id = 1;
        property = AnimatableProperty.left;
        start_value = negsuc 2;
        end_value = pos 5;
        start_time = 0;
        duration = 2000000000;
        delay = 0;
        easing = Easing.linear;
      }
      ∷ [];
  baseline_styles =
      (
        1,
        record {
          width = some 10;
          height = none;
          top = none;
          left = some (pos 5);
          right = none;
          bottom = none;
          opacity = none;
        },
      )
      ∷ [];
}

seen : sync_transitions whole new (page (some 10) (some (negsuc 2))) 0 clock ≡ first_seen
unfolding sync_transitions get_value set_value target_value insert_at props_to_check
seen = refl

moves : sync_transitions whole first_seen (page (some 10) (some (pos 5))) 0 clock ≡ moving
unfolding sync_transitions get_value set_value target_value insert_at props_to_check nat_diff
    int_sub is_of discriminant find_transition cancel_property retain
moves = refl

finishes : tick whole moving (page (some 10) (some (negsuc 2))) 2000000000 ≡ (
  record moving { active_transitions = [] },
  (record (page (some 10) (some (pos 5))) { dirty_nodes = 1 ∷ [] }, true),
)
unfolding tick tick_from write_to sample evaluate_easing write_value get update mark_dirty
    contains_id swap_remove nat_diff int_sub
finishes = refl

restores :
    restore_baselines whole moving (page (some 10) (some (negsuc 1)))
    ≡ page (some 10) (some (pos 5))
unfolding restore_baselines restored get update
restores = refl

page-InRange :
    All
      (λ (n : ℕ × Node (ComputedStyle ℤ ℤ)). InRange whole n.1.style)
      (iter_from 0 (page (some 10) (some (pos 5))).arena.nodes)
unfolding iter_from
page-InRange = (
  record {
    width = omega arith;
    height = tt;
    top = tt;
    left = omega arith;
    right = tt;
    bottom = tt;
    opacity = tt;
  },
  tt,
)

moves_baselines :
    moving.baseline_styles
    ≡ (sync_transitions whole first_seen (page (some 10) (some (pos 5))) 0 clock).baseline_styles
moves_baselines = ap (λ (c : AnimationController ℤ). c.baseline_styles) (sym moves)

sync_transitions-quiet_example :
    (sync_transitions whole moving (page (some 10) (some (pos 5))) 7 clock).active_transitions
    ≡ moving.active_transitions
sync_transitions-quiet_example =
    sync_transitions-quiet whole whole-FloatLaws (page (some 10) (some (pos 5))) page-InRange
      first_seen moving 0 7 clock clock moves_baselines

tick-Perm_example :
    Perm
      (tick whole moving (page (some 10) (some (negsuc 2))) 2000000000).0.active_transitions
      (retain (is_running whole 2000000000) moving.active_transitions)
tick-Perm_example = tick-Perm whole 2000000000 moving (page (some 10) (some (negsuc 2)))

abbrev uses : List (Operation ℤ)
uses =
    synced (page (some 10) (some (negsuc 2))) 0 clock
    ∷ synced (page (some 10) (some (pos 5))) 0 clock
    ∷ ticked (page (some 10) (some (negsuc 2))) 5
    ∷ synced (page (some 10) (some (pos 9))) 5 clock
    ∷ node_cancelled 3
    ∷ []

run-new-IsUnique_example : IsUnique (run whole new uses).active_transitions
run-new-IsUnique_example = run-new-IsUnique whole uses
