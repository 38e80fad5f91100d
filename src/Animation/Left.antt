-- ===== src/Animation/Left.antt =====
-- Which transitions a `tick` leaves: those that have not finished, whatever their order.
use oxiterm.Common.{
  ℕ, zero, suc, ◌≤◌, ◌≡◌, refl, sym, ap, ap₂, ◌∙◌, subst, Bool, true, false, not, ◌||◌, none, some,
  List, [], ◌∷◌, ◌++◌, append-nil, if◌then◌else◌, append_assoc, length, get_elem?, get_elem?-middle,
  length-append, arith, Bool-cases, inl, inr,
}
use mathlib.Core.List.{Perm}
use mathlib.Core.List.Perm
use oxiterm.Animation.{AnimationController, retain, last_first, swap_remove}
use oxiterm.Animation.Solvers.{Floats}
use oxiterm.Animation.Values.{ActiveTransition, sample}
use oxiterm.Animation.Tick.{Document, write_to, tick_from, tick}

module _ {A : Type 0} where
  -- What follows a removed element.
  abbrev moved_up : List A → List A
  moved_up [] = []
  moved_up (y ∷ ys) = last_first y ys

  length-last_first : (x : A) (xs : List A) → length (last_first x xs) ≡ suc (length xs)
  length-last_first x [] = refl
  length-last_first x (y ∷ ys) = go (last_first y ys) (length-last_first y ys)
    where
      go :
          (l : List A)
          → length l ≡ suc (length ys)
          → length (elim l as (λ _. List A) [ [] ↦ x ∷ [] | z ∷ front ↦ z ∷ x ∷ front ])
            ≡ suc (suc (length ys))
      go [] p = absurd (omega (arith, p))
      go (z ∷ front) p = omega (arith, p)

  swap_remove-middle :
      (done : List A) (x : A) (rest : List A)
      → swap_remove (done ++ x ∷ rest) (length done) ≡ done ++ moved_up rest
  unfolding swap_remove
  swap_remove-middle [] x [] = refl
  swap_remove-middle [] x (y ∷ ys) = refl
  swap_remove-middle (z ∷ []) x rest = ap (λ l. z ∷ l) (swap_remove-middle [] x rest)
  swap_remove-middle (z ∷ w ∷ done) x rest = ap (λ l. z ∷ l) (swap_remove-middle (w ∷ done) x rest)

  module _ (keep : A → Bool) where
    keep_head :
        (b : Bool) (x : A) {xs ys : List A}
        → Perm xs ys
        → Perm (if b then x ∷ xs else xs) (if b then x ∷ ys else ys)
    keep_head true x p = Perm.cons x p
    keep_head false x p = p

    keep_swapped :
        (a b : Bool) (z x : A) (r : List A)
        → Perm
            (if a then z ∷ (if b then x ∷ r else r) else (if b then x ∷ r else r))
            (if b then x ∷ (if a then z ∷ r else r) else (if a then z ∷ r else r))
    keep_swapped true true z x r = Perm.swap x z r
    keep_swapped true false z x r = Perm.rfl
    keep_swapped false true z x r = Perm.rfl
    keep_swapped false false z x r = Perm.rfl

    retain-last_first :
        (x : A) (xs : List A) → Perm (retain keep (last_first x xs)) (retain keep (x ∷ xs))
    unfolding retain
    retain-last_first x [] = Perm.rfl
    retain-last_first x (y ∷ ys) =
        go (last_first y ys) (length-last_first y ys) (retain-last_first y ys)
      where
        go :
            (l : List A)
            → length l ≡ suc (length ys)
            → Perm (retain keep l) (retain keep (y ∷ ys))
            → Perm
                (retain keep (elim l as (λ _. List A) [ [] ↦ x ∷ [] | z ∷ front ↦ z ∷ x ∷ front ]))
                (retain keep (x ∷ y ∷ ys))
        go [] e p = absurd (omega (arith, e))
        go (z ∷ front) e p =
            Perm.trans (keep_swapped (keep z) (keep x) z x (retain keep front))
              (keep_head (keep x) x p)

    retain-moved_up : (xs : List A) → Perm (retain keep (moved_up xs)) (retain keep xs)
    retain-moved_up [] = Perm.rfl
    retain-moved_up (y ∷ ys) = retain-last_first y ys

  length-moved_up : (xs : List A) → length (moved_up xs) ≡ length xs
  length-moved_up [] = refl
  length-moved_up (y ∷ ys) = length-last_first y ys

  get_elem?-end : (done : List A) → get_elem? done (length done) ≡ none
  get_elem?-end [] = refl
  get_elem?-end (y ∷ done) = get_elem?-end done

module _ {F : Type 0} (fl : Floats F) (now : ℕ) where
  -- The transitions that have not finished.
  abbrev pub is_running : ActiveTransition F → Bool
  is_running t = not (sample fl t now).1

  -- The transitions that the loop leaves.
  abbrev left_by :
      ℕ → List (ActiveTransition F) → ℕ → Document fl → Bool → List (ActiveTransition F)
  left_by turns ts i doc changed = (tick_from fl turns now ts i doc changed).0

  -- A turn goes on with the list and the place that its sample says.
  left_by-turn :
      (turns : ℕ) (ts : List (ActiveTransition F)) (i : ℕ) (doc : Document fl) (changed : Bool)
      (t : ActiveTransition F) (finished : Bool)
      → get_elem? ts i ≡ some t
      → (sample fl t now).1 ≡ finished
      → (doc' : Document fl) × (changed' : Bool) × (left_by (suc turns) ts i doc changed
          ≡ (elim finished as (λ _. List (ActiveTransition F)) [
            | true ↦ left_by turns (swap_remove ts i) i doc' changed'
            | false ↦ left_by turns ts (suc i) doc' changed'
          ]))
  unfolding tick_from
  left_by-turn turns ts i doc changed t true e f = (
    (write_to fl doc t.node_id t.property (sample fl t now).0).0,
    (write_to fl doc t.node_id t.property (sample fl t now).0).1 || changed,
    rw (left_by, tick_from, e, f) refl,
  )
  left_by-turn turns ts i doc changed t false e f = (
    (write_to fl doc t.node_id t.property (sample fl t now).0).0,
    (write_to fl doc t.node_id t.property (sample fl t now).0).1 || changed,
    rw (left_by, tick_from, e, f) refl,
  )

  left_by-end :
      (turns : ℕ) (ts : List (ActiveTransition F)) (i : ℕ) (doc : Document fl) (changed : Bool)
      → get_elem? ts i ≡ none
      → left_by turns ts i doc changed ≡ ts
  unfolding tick_from
  left_by-end zero ts i doc changed e = refl
  left_by-end (suc turns) ts i doc changed e = rw (left_by, tick_from, e) refl

  -- The loop has passed some transitions that stay, and goes through the others.
  left_by-Perm :
      (turns : ℕ) (done rest : List (ActiveTransition F)) (doc : Document fl) (changed : Bool)
      → length rest ≤ turns
      → Perm
          (left_by turns (done ++ rest) (length done) doc changed)
          (done ++ retain is_running rest)
  unfolding retain
  left_by-Perm turns done [] doc changed le =
      let e : get_elem? (done ++ []) (length done) ≡ none =
        rw (append-nil done) (get_elem?-end done) in
      rw (left_by-end turns (done ++ []) (length done) doc changed e) Perm.rfl
  left_by-Perm zero done (t ∷ rest) doc changed le = absurd (omega (arith, le))
  left_by-Perm (suc turns) done (t ∷ rest) doc changed le = elim (Bool-cases (sample fl t now).1) [
    | inl e ↦
        let (doc', changed', turn) =
          left_by-turn turns (done ++ t ∷ rest) (length done) doc changed t true
            (get_elem?-middle done t rest) e in
        let here =
          turn
          ∙ ap (λ l. left_by turns l (length done) doc' changed')
              (swap_remove-middle done t rest) in
        let others =
          left_by-Perm turns done (moved_up rest) doc' changed'
            (omega (arith, length-moved_up rest, le)) in
        rw (here, e)
          (Perm.trans others (Perm.append (Perm.refl done) (retain-moved_up is_running rest)))
    | inr e ↦
        let (doc', changed', turn) =
          left_by-turn turns (done ++ t ∷ rest) (length done) doc changed t false
            (get_elem?-middle done t rest) e in
        let place : suc (length done) ≡ length (done ++ t ∷ []) =
          omega (arith, length-append done (t ∷ [])) in
        let here =
          turn
          ∙ ap₂ (λ l i. left_by turns l i doc' changed') (sym (append_assoc done (t ∷ []) rest))
              place in
        let others = left_by-Perm turns (done ++ t ∷ []) rest doc' changed' (omega (arith, le)) in
        rw (here, e)
          (subst
            (λ l.
              Perm
                (left_by turns ((done ++ t ∷ []) ++ rest) (length (done ++ t ∷ [])) doc' changed')
                l)
            (append_assoc done (t ∷ []) (retain is_running rest)) others)
  ]

  -- A tick leaves exactly the transitions whose sample at that time has not finished, each as often as
  -- before, though not in the same order, however many turns the bisection of a curve is given before
  -- it is cut off. Of a tick whose bisection goes on for ever in the source it says nothing.
  pub tick-Perm :
      (c : AnimationController F) (doc : Document fl)
      → Perm (tick fl c doc now).0.active_transitions (retain is_running c.active_transitions)
  unfolding tick
  tick-Perm c doc =
      left_by-Perm (length c.active_transitions) [] c.active_transitions doc false (omega arith)
