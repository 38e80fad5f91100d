-- ===== src/Animation.antt =====
-- oxiterm-server/src/animation.rs: `AnimationController`, the transitions that run on the properties
-- of nodes. A clock gives the k-th reading of `Instant::now()` within a call. The baselines are an
-- association list with one entry per node; the order of a `HashMap`'s entries is free in the source.
pub mod Solvers
pub mod Values
pub mod Sync
pub mod Tick
pub mod Left
pub mod Unique
pub mod Places
pub mod Settled
pub mod Loops
pub mod Quiet
mod Whole
mod Tests
use oxiterm.Common.{
  ℕ, zero, suc, ◌+◌, ◌-◌, ◌*◌, Bool, true, false, not, ◌&&◌, ◌||◌, ◌==◌, Option, none, some, List,
  [], ◌∷◌, ◌++◌, lookup, length, get_elem?, set, if◌then◌else◌,
}
use oxiterm.Common.Int.{ℤ}
use oxiterm.Style.Computed.{AnimatableProperty, Easing, TransitionSpec, ComputedStyle}
use oxiterm.Dom.{Node}
use oxiterm.Arena.{get, update}
use oxiterm.Document.{ThtmlDocument, mark_dirty}
use oxiterm.Animation.Solvers.{Floats}
use oxiterm.Animation.Values.{
  ActiveTransition, StoredPropertyValues, no_values, sample, get_value, set_value, target_value,
  write_value, restored, mapped,
}

-- The place of a property in its declaration; `==` compares the places.
unfoldable pub discriminant : AnimatableProperty → ℕ
discriminant AnimatableProperty.all = 0
discriminant AnimatableProperty.left = 1
discriminant AnimatableProperty.top = 2
discriminant AnimatableProperty.right = 3
discriminant AnimatableProperty.bottom = 4
discriminant AnimatableProperty.width = 5
discriminant AnimatableProperty.height = 6
discriminant AnimatableProperty.margin_left = 7
discriminant AnimatableProperty.margin_top = 8
discriminant AnimatableProperty.margin_right = 9
discriminant AnimatableProperty.margin_bottom = 10
discriminant AnimatableProperty.opacity = 11
discriminant AnimatableProperty.fg = 12
discriminant AnimatableProperty.bg = 13

-- `HashMap::insert`
unfoldable pub insert_at : {V : Type 0} → List (ℕ × V) → ℕ → V → List (ℕ × V)
insert_at [] k v = (k, v) ∷ []
insert_at ((i, w) ∷ m) k v =
    let later = insert_at m k v in if i == k then (k, v) ∷ m else (i, w) ∷ later

-- `Vec::retain`
unfoldable pub retain : {A : Type 0} → (A → Bool) → List A → List A
retain keep [] = []
retain keep (x ∷ xs) = let rest = retain keep xs in if keep x then x ∷ rest else rest

-- `Vec::swap_remove` of a valid index: the last element takes the place of the removed one.
abbrev pub last_first : {A : Type 0} → A → List A → List A
last_first x [] = x ∷ []
last_first x (y ∷ ys) = elim (last_first y ys) [ [] ↦ x ∷ [] | l ∷ front ↦ l ∷ x ∷ front ]

unfoldable pub swap_remove : {A : Type 0} → List A → ℕ → List A
swap_remove [] i = []
swap_remove (x ∷ []) zero = []
swap_remove (x ∷ y ∷ ys) zero = last_first y ys
swap_remove (x ∷ xs) (suc i) = x ∷ swap_remove xs i

-- The slots of an arena that hold a node, with their ids (`NodeArena::iter`).
unfoldable pub iter_from : {A : Type 0} → ℕ → List (Option A) → List (ℕ × A)
iter_from i [] = []
iter_from i (none ∷ slots) = iter_from (suc i) slots
iter_from i (some a ∷ slots) = (i, a) ∷ iter_from (suc i) slots

module _ {F : Type 0} where
  -- Whether a transition is the one of a property of a node.
  unfoldable pub is_of : ℕ → AnimatableProperty → ActiveTransition F → Bool
  unfolding discriminant
  is_of node_id prop t = (t.node_id == node_id) && (discriminant t.property == discriminant prop)

  unfoldable pub find_transition :
      ℕ → AnimatableProperty → List (ActiveTransition F) → Option (ActiveTransition F)
  unfolding is_of
  find_transition node_id prop [] = none
  find_transition node_id prop (t ∷ ts) =
      let later = find_transition node_id prop ts in if is_of node_id prop t then some t else later

-- The `props_to_check` of a transition's specification.
unfoldable pub props_to_check : AnimatableProperty → List AnimatableProperty
props_to_check AnimatableProperty.all =
    AnimatableProperty.width ∷ AnimatableProperty.height ∷ AnimatableProperty.top
    ∷ AnimatableProperty.left ∷ AnimatableProperty.right ∷ AnimatableProperty.bottom
    ∷ AnimatableProperty.opacity ∷ []
props_to_check other = other ∷ []

-- A new transition before its start.
pub record Launch (F : Type 0) : Type 0 where
  pub node_id : ℕ
  pub property : AnimatableProperty
  pub start_value : F
  pub end_value : F
  pub duration : ℕ
  pub delay : ℕ
  pub easing : Easing F

pub record AnimationController (F : Type 0) : Type 0 where
  pub active_transitions : List (ActiveTransition F)
  pub baseline_styles : List (ℕ × StoredPropertyValues F)

abbrev pub new : {F : Type 0} → AnimationController F
new = record { active_transitions = []; baseline_styles = [] }

module _ {F : Type 0} where
  pub has_active : AnimationController F → Bool
  has_active c = elim c.active_transitions [ [] ↦ false | _ ∷ _ ↦ true ]

  pub active_count : AnimationController F → ℕ
  active_count c = length c.active_transitions

  unfoldable pub clear : AnimationController F → AnimationController F
  clear c = record { active_transitions = []; baseline_styles = [] }

  unfoldable pub cancel_node : AnimationController F → ℕ → AnimationController F
  unfolding retain
  cancel_node c node_id = record c {
    active_transitions = retain (λ t. not (t.node_id == node_id)) c.active_transitions;
  }

  unfoldable pub cancel_property :
      AnimationController F → ℕ → AnimatableProperty → AnimationController F
  unfolding retain is_of
  cancel_property c node_id prop = record c {
    active_transitions = retain (λ t. not (is_of node_id prop t)) c.active_transitions;
  }

  unfoldable pub start_transition : AnimationController F → Launch F → ℕ → AnimationController F
  unfolding cancel_property
  start_transition c l start_time = record (cancel_property c l.node_id l.property) {
    active_transitions =
        (cancel_property c l.node_id l.property).active_transitions
        ++ record {
          node_id = l.node_id;
          property = l.property;
          start_value = l.start_value;
          end_value = l.end_value;
          start_time = start_time;
          duration = l.duration;
          delay = l.delay;
          easing = l.easing;
        }
          ∷ [];
  }

  unfoldable pub start_all :
      AnimationController F → List (Launch F) → (ℕ → ℕ) → ℕ → AnimationController F
  unfolding start_transition
  start_all c [] clock k = c
  start_all c (l ∷ launches) clock k =
      start_all (start_transition c l (clock k)) launches clock (suc k)
