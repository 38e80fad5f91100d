-- ===== src/Animation/Unique.antt =====
-- No property of a node has two transitions: every operation of the controller keeps it so.
use oxiterm.Common.{
  ℕ, suc, ◌≡◌, refl, sym, ap, Bool, true, false, not, List, [], ◌∷◌, ◌++◌, All, arith,
  if◌then◌else◌,
}
use mathlib.Core.List.{Mem, Perm, Pairwise, Pairwise-cons, not-mem-nil, forall_mem-cons}
use mathlib.Core.List.Perm
use oxiterm.Common.Int.{ℤ}
use oxiterm.Style.Computed.{AnimatableProperty, ComputedStyle}
use oxiterm.Document.{ThtmlDocument}
use oxiterm.Animation.{
  AnimationController, Launch, discriminant, retain, is_of, new, clear, cancel_node,
  cancel_property, start_transition, start_all,
}
use oxiterm.Animation.Solvers.{Floats}
use oxiterm.Animation.Values.{ActiveTransition}
use oxiterm.Animation.Sync.{sync_transitions, found}
use oxiterm.Animation.Tick.{tick}
use oxiterm.Animation.Left.{is_running, tick-Perm}

module _ {F : Type 0} where
  -- Two transitions of different nodes or properties.
  abbrev pub Apart : ActiveTransition F → ActiveTransition F → Type 0
  Apart t u = ¬ ((t.node_id ≡ u.node_id) × (t.property ≡ u.property))

  abbrev pub IsUnique : List (ActiveTransition F) → Type 0
  IsUnique [] = Unit
  IsUnique (t ∷ ts) = All (Apart t) ts × IsUnique ts

  Apart-sym : (t u : ActiveTransition F) → Apart t u → Apart u t
  Apart-sym t u h (e, f) = h (sym e, sym f)

  Apart-IsProp : (t u : ActiveTransition F) → IsProp (Apart t u)
  Apart-IsProp t u = hlevel

  All→Mem :
      (t : ActiveTransition F) (ts : List (ActiveTransition F))
      → All (Apart t) ts
      → (u : ActiveTransition F) → Mem u ts
      → Apart t u
  All→Mem t [] h = λ u m. absurd (not-mem-nil m)
  All→Mem t (v ∷ ts) h = (forall_mem-cons (Apart-IsProp t)).1 (h.0, All→Mem t ts h.1)

  Mem→All :
      (t : ActiveTransition F) (ts : List (ActiveTransition F))
      → ((u : ActiveTransition F) → Mem u ts → Apart t u)
      → All (Apart t) ts
  Mem→All t [] h = tt
  Mem→All t (v ∷ ts) h =
      let (here, there) = (forall_mem-cons (Apart-IsProp t)).0 h in (here, Mem→All t ts there)

  IsUnique→Pairwise : (ts : List (ActiveTransition F)) → IsUnique ts → Pairwise Apart ts
  IsUnique→Pairwise [] h = Pairwise.nil
  IsUnique→Pairwise (t ∷ ts) h = Pairwise.cons (All→Mem t ts h.0) (IsUnique→Pairwise ts h.1)

  Pairwise→IsUnique : (ts : List (ActiveTransition F)) → Pairwise Apart ts → IsUnique ts
  Pairwise→IsUnique [] h = tt
  Pairwise→IsUnique (t ∷ ts) h =
      let (here, there) = Pairwise-cons.0 h in (Mem→All t ts here, Pairwise→IsUnique ts there)

  IsUnique-Perm : {ts us : List (ActiveTransition F)} → Perm ts us → IsUnique us → IsUnique ts
  IsUnique-Perm {ts} {us} p h =
      Pairwise→IsUnique ts
        (Perm.pairwise Apart-IsProp Apart-sym (Perm.symm p) (IsUnique→Pairwise us h))

  All-retain :
      (P : ActiveTransition F → Type 0) (keep : ActiveTransition F → Bool)
      (ts : List (ActiveTransition F))
      → All P ts
      → All P (retain keep ts)
  unfolding retain
  All-retain P keep [] h = tt
  All-retain P keep (t ∷ ts) h = go (keep t) (All-retain P keep ts h.1)
    where
      go :
          (b : Bool)
          → All P (retain keep ts)
          → All P (if b then t ∷ retain keep ts else retain keep ts)
      go true g = (h.0, g)
      go false g = g

  pub IsUnique-retain :
      (keep : ActiveTransition F → Bool) (ts : List (ActiveTransition F))
      → IsUnique ts
      → IsUnique (retain keep ts)
  unfolding retain
  IsUnique-retain keep [] h = tt
  IsUnique-retain keep (t ∷ ts) h = go (keep t) (IsUnique-retain keep ts h.1)
    where
      go :
          (b : Bool)
          → IsUnique (retain keep ts)
          → IsUnique (if b then t ∷ retain keep ts else retain keep ts)
      go true g = (All-retain (Apart t) keep ts h.0, g)
      go false g = g

  IsUnique-append :
      (ts : List (ActiveTransition F)) (u : ActiveTransition F)
      → All (λ t. Apart t u) ts
      → IsUnique ts
      → IsUnique (ts ++ u ∷ [])
  IsUnique-append [] u a h = (tt, tt)
  IsUnique-append (t ∷ ts) u a h = (join ts h.0, IsUnique-append ts u a.1 h.1)
    where
      join : (ss : List (ActiveTransition F)) → All (Apart t) ss → All (Apart t) (ss ++ u ∷ [])
      join [] g = (a.0, tt)
      join (s ∷ ss) g = (g.0, join ss g.1)

  -- What is not of a property of a node is apart from each transition that is.
  is_of-Apart : (t u : ActiveTransition F) → is_of u.node_id u.property t ≡ false → Apart t u
  unfolding is_of
  is_of-Apart t u h (e, f) =
      let same : discriminant t.property ≡ discriminant u.property = ap discriminant f in
      ground (arith, h, e, same)

  cancelled :
      (ts : List (ActiveTransition F)) (u : ActiveTransition F)
      → All (λ t. Apart t u) (retain (λ t. not (is_of u.node_id u.property t)) ts)
  unfolding retain
  cancelled [] u = tt
  cancelled (t ∷ ts) u = go (is_of u.node_id u.property t) refl (cancelled ts u)
    where
      go :
          (b : Bool)
          → is_of u.node_id u.property t ≡ b
          → All (λ s. Apart s u) (retain (λ s. not (is_of u.node_id u.property s)) ts)
          → All
              (λ s. Apart s u)
              (if not b
                then t ∷ retain (λ s. not (is_of u.node_id u.property s)) ts
                else retain (λ s. not (is_of u.node_id u.property s)) ts)
      go true e g = g
      go false e g = (is_of-Apart t u e, g)

  -- A transition that starts takes the place of that of its property.
  pub start_transition-IsUnique :
      (c : AnimationController F) (l : Launch F) (start_time : ℕ)
      → IsUnique c.active_transitions
      → IsUnique (start_transition c l start_time).active_transitions
  unfolding start_transition cancel_property
  start_transition-IsUnique c l start_time h =
      let u : ActiveTransition F = record {
        node_id = l.node_id;
        property = l.property;
        start_value = l.start_value;
        end_value = l.end_value;
        start_time = start_time;
        duration = l.duration;
        delay = l.delay;
        easing = l.easing;
      } in
      let keep : ActiveTransition F → Bool = λ t. not (is_of l.node_id l.property t) in
      IsUnique-append (retain keep c.active_transitions) u (cancelled c.active_transitions u)
        (IsUnique-retain keep c.active_transitions h)

  start_all-IsUnique :
      (launches : List (Launch F)) (c : AnimationController F) (clock : ℕ → ℕ) (k : ℕ)
      → IsUnique c.active_transitions
      → IsUnique (start_all c launches clock k).active_transitions
  unfolding start_all
  start_all-IsUnique [] c clock k h = h
  start_all-IsUnique (l ∷ launches) c clock k h =
      start_all-IsUnique launches (start_transition c l (clock k)) clock (suc k)
        (start_transition-IsUnique c l (clock k) h)

-- The operations of a controller on a document, with what they take from the clock.
pub data Operation (F : Type 0) : Type 0 where
  cleared : Operation F
  node_cancelled : ℕ → Operation F
  property_cancelled : ℕ → AnimatableProperty → Operation F
  started : Launch F → ℕ → Operation F
  synced : ThtmlDocument (ComputedStyle F ℤ) → ℕ → (ℕ → ℕ) → Operation F
  ticked : ThtmlDocument (ComputedStyle F ℤ) → ℕ → Operation F

module _ {F : Type 0} (fl : Floats F) where
  unfoldable pub apply : AnimationController F → Operation F → AnimationController F
  unfolding clear cancel_node cancel_property start_transition sync_transitions tick
  apply c cleared = clear c
  apply c (node_cancelled node_id) = cancel_node c node_id
  apply c (property_cancelled node_id prop) = cancel_property c node_id prop
  apply c (started l start_time) = start_transition c l start_time
  apply c (synced doc now clock) = sync_transitions fl c doc now clock
  apply c (ticked doc now) = (tick fl c doc now).0

  apply-IsUnique :
      (op : Operation F) (c : AnimationController F)
      → IsUnique c.active_transitions
      → IsUnique (apply c op).active_transitions
  unfolding apply clear cancel_node cancel_property sync_transitions
  apply-IsUnique cleared c h = tt
  apply-IsUnique (node_cancelled node_id) c h = IsUnique-retain _ c.active_transitions h
  apply-IsUnique (property_cancelled node_id prop) c h = IsUnique-retain _ c.active_transitions h
  apply-IsUnique (started l start_time) c h = start_transition-IsUnique c l start_time h
  apply-IsUnique (synced doc now clock) c h =
      start_all-IsUnique (found fl c doc now).1
        (record c { baseline_styles = (found fl c doc now).0 }) clock 0 h
  apply-IsUnique (ticked doc now) c h =
      IsUnique-Perm (tick-Perm fl now c doc)
        (IsUnique-retain (is_running fl now) c.active_transitions h)

  unfoldable pub run : AnimationController F → List (Operation F) → AnimationController F
  unfolding apply
  run c [] = c
  run c (op ∷ ops) = run (apply c op) ops

  run-IsUnique :
      (ops : List (Operation F)) (c : AnimationController F)
      → IsUnique c.active_transitions
      → IsUnique (run c ops).active_transitions
  unfolding run
  run-IsUnique [] c h = h
  run-IsUnique (op ∷ ops) c h = run-IsUnique ops (apply c op) (apply-IsUnique op c h)

  -- Whatever operations a new controller has gone through, no property of a node has two transitions.
  pub run-new-IsUnique : (ops : List (Operation F)) → IsUnique (run new ops).active_transitions
  run-new-IsUnique ops = run-IsUnique ops new tt
