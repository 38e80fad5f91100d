-- ===== src/Animation/Quiet.antt =====
-- A second synchronisation of a document that has not changed starts nothing.
use oxiterm.Common.{
  ℕ, suc, ◌≤◌, ◌≡◌, ◌≢◌, refl, sym, ap, ◌∙◌, subst, ◌==◌, ==_iff, Option, none, some, List, [], ◌∷◌,
  lookup, All, arith, Bool-cases, inl, inr, if◌then◌else◌, ℕ_discrete,
}
use oxiterm.Common.Int.{ℤ}
use oxiterm.Style.Computed.{TransitionSpec, ComputedStyle}
use oxiterm.Dom.{Node}
use oxiterm.Document.{ThtmlDocument}
use oxiterm.Animation.{
  AnimationController, Launch, insert_at, iter_from, start_transition, cancel_property, start_all,
}
use oxiterm.Animation.Solvers.{Floats}
use oxiterm.Animation.Values.{ActiveTransition, StoredPropertyValues, no_values}
use oxiterm.Animation.Sync.{stored_of, check_specs, sync_node, sync_nodes, found, sync_transitions}
use oxiterm.Animation.Settled.{FloatLaws, InRange, AllSettled}
use oxiterm.Animation.Loops.{check_specs-settled, check_specs-AllSettled}

lookup-insert_at :
    {V : Type 0} (m : List (ℕ × V)) (k j : ℕ) (v : V)
    → lookup (insert_at m k v) j ≡ (if k == j then some v else lookup m j)
unfolding insert_at
lookup-insert_at [] k j v = refl
lookup-insert_at ((i, w) ∷ m) k j v =
    ground (arith, ==_iff i k, ==_iff i j, ==_iff k j, lookup-insert_at m k j v)

-- The ids are at least a number, and no two are equal.
iter_from-above :
    {A : Type 0} (i k : ℕ) (slots : List (Option A))
    → k ≤ i
    → All (λ (n : ℕ × A). k ≤ n.0) (iter_from i slots)
unfolding iter_from
iter_from-above i k [] le = tt
iter_from-above i k (none ∷ slots) le = iter_from-above (suc i) k slots (omega (arith, le))
iter_from-above i k (some a ∷ slots) le = (le, iter_from-above (suc i) k slots (omega (arith, le)))

module _ {F : Type 0} (fl : Floats F) where
  abbrev Baselines : Type 0
  Baselines = List (ℕ × StoredPropertyValues F)

  abbrev Nodes : Type 0
  Nodes = List (ℕ × Node (ComputedStyle F ℤ))

  abbrev stored_in : Option (StoredPropertyValues F) → StoredPropertyValues F
  stored_in none = no_values
  stored_in (some s) = s

  stored_of-insert_self :
      (b : Baselines) (k : ℕ) (v : StoredPropertyValues F) → stored_of fl (insert_at b k v) k ≡ v
  stored_of-insert_self b k v =
      ap stored_in (lookup-insert_at b k k v)
      ∙ ap (λ t. stored_in (if t then some v else lookup b k)) ((==_iff k k).1 refl)

  stored_of-insert_other :
      (b : Baselines) (k j : ℕ) (v : StoredPropertyValues F)
      → k ≢ j
      → stored_of fl (insert_at b k v) j ≡ stored_of fl b j
  stored_of-insert_other b k j v ne = elim (Bool-cases (k == j)) [
    | inl e ↦ absurd (ne ((==_iff k j).0 e))
    | inr e ↦
        ap stored_in (lookup-insert_at b k j v)
        ∙ ap (λ t. stored_in (if t then some v else lookup b j)) e
  ]

  -- A value that is there already may be inserted.
  stored_of-insert_same :
      (b : Baselines) (k j : ℕ)
      → stored_of fl (insert_at b k (stored_of fl b k)) j ≡ stored_of fl b j
  stored_of-insert_same b k j = elim (ℕ_discrete k j) [
    | yes e ↦
        subst (λ i. stored_of fl (insert_at b k (stored_of fl b k)) i ≡ stored_of fl b i) e
          (stored_of-insert_self b k (stored_of fl b k))
    | no ne ↦ stored_of-insert_other b k j (stored_of fl b k) ne
  ]

  abbrev NodeSettled : Baselines → ℕ × Node (ComputedStyle F ℤ) → Type 0
  NodeSettled b (id, node) = AllSettled fl node.style (stored_of fl b id) node.style.transitions

  module _ (ts : List (ActiveTransition F)) (now : ℕ) where
    sync_node-other :
        (acc : Baselines × List (Launch F)) (id j : ℕ) (style : ComputedStyle F ℤ)
        (specs : List (TransitionSpec F))
        → id ≢ j
        → stored_of fl (sync_node fl ts now acc id style specs).0 j ≡ stored_of fl acc.0 j
    unfolding sync_node
    sync_node-other acc id j style [] ne = refl
    sync_node-other (b, l) id j style (spec ∷ specs) ne = stored_of-insert_other b id j _ ne

    sync_nodes-other :
        (nodes : Nodes) (acc : Baselines × List (Launch F)) (j : ℕ)
        → All (λ (n : ℕ × Node (ComputedStyle F ℤ)). n.0 ≢ j) nodes
        → stored_of fl (sync_nodes fl ts now acc nodes).0 j ≡ stored_of fl acc.0 j
    unfolding sync_nodes
    sync_nodes-other [] acc j h = refl
    sync_nodes-other ((id, node) ∷ nodes) acc j h =
        sync_nodes-other nodes _ j h.1
        ∙ sync_node-other acc id j node.style node.style.transitions h.0

    -- Nothing is launched where all is settled, and the baselines stay.
    sync_node-settled :
        (b : Baselines) (l : List (Launch F)) (id : ℕ) (style : ComputedStyle F ℤ)
        (specs : List (TransitionSpec F))
        → AllSettled fl style (stored_of fl b id) specs
        → ((sync_node fl ts now (b, l) id style specs).1 ≡ l)
          × ((j : ℕ)
              → stored_of fl (sync_node fl ts now (b, l) id style specs).0 j ≡ stored_of fl b j)
    unfolding sync_node
    sync_node-settled b l id style [] h = (refl, λ j. refl)
    sync_node-settled b l id style (spec ∷ specs) h =
        let e = check_specs-settled fl ts now id style (stored_of fl b id, l) (spec ∷ specs) h in
        (
          ap (λ (a : StoredPropertyValues F × List (Launch F)). a.1) e,
          λ j.
              ap
                (λ (a : StoredPropertyValues F × List (Launch F)).
                  stored_of fl (insert_at b id a.0) j)
                e
              ∙ stored_of-insert_same b id j,
        )

    All-NodeSettled :
        (nodes : Nodes) (b c : Baselines)
        → ((j : ℕ) → stored_of fl b j ≡ stored_of fl c j)
        → All (NodeSettled c) nodes
        → All (NodeSettled b) nodes
    All-NodeSettled [] b c e h = tt
    All-NodeSettled ((id, node) ∷ nodes) b c e h = (
      subst (λ s. AllSettled fl node.style s node.style.transitions) (sym (e id)) h.0,
      All-NodeSettled nodes b c e h.1,
    )

    sync_nodes-settled :
        (nodes : Nodes) (b : Baselines) (l : List (Launch F))
        → All (NodeSettled b) nodes
        → (sync_nodes fl ts now (b, l) nodes).1 ≡ l
    unfolding sync_nodes
    sync_nodes-settled [] b l h = refl
    sync_nodes-settled ((id, node) ∷ nodes) b l h =
        let (same, kept) = sync_node-settled b l id node.style node.style.transitions h.0 in
        let (b', l') = sync_node fl ts now (b, l) id node.style node.style.transitions in
        sync_nodes-settled nodes b' l' (All-NodeSettled nodes b' b kept h.1) ∙ same

    module _ (laws : FloatLaws fl) where
      sync_node-AllSettled :
          (acc : Baselines × List (Launch F)) (id : ℕ) (style : ComputedStyle F ℤ)
          (specs : List (TransitionSpec F))
          → InRange fl style
          → AllSettled fl style (stored_of fl (sync_node fl ts now acc id style specs).0 id) specs
      unfolding sync_node
      sync_node-AllSettled acc id style [] r = tt
      sync_node-AllSettled (b, l) id style (spec ∷ specs) r =
          let checked = check_specs fl ts now id style (stored_of fl b id, l) (spec ∷ specs) in
          subst (λ s. AllSettled fl style s (spec ∷ specs))
            (sym (stored_of-insert_self b id checked.0))
            (check_specs-AllSettled fl ts now id style laws r (stored_of fl b id, l)
              (spec ∷ specs)).0

      sync_nodes-AllSettled :
          (i : ℕ) (slots : List (Option (Node (ComputedStyle F ℤ))))
          (acc : Baselines × List (Launch F))
          → All (λ (n : ℕ × Node (ComputedStyle F ℤ)). InRange fl n.1.style) (iter_from i slots)
          → All (NodeSettled (sync_nodes fl ts now acc (iter_from i slots)).0) (iter_from i slots)
      unfolding sync_nodes iter_from
      sync_nodes-AllSettled i [] acc h = tt
      sync_nodes-AllSettled i (none ∷ slots) acc h = sync_nodes-AllSettled (suc i) slots acc h
      sync_nodes-AllSettled i (some node ∷ slots) acc h =
          let nodes = iter_from (suc i) slots in
          let acc' = sync_node fl ts now acc i node.style node.style.transitions in
          (
            subst (λ s. AllSettled fl node.style s node.style.transitions)
                (sym (
                  sync_nodes-other nodes acc' i
                    (above nodes (iter_from-above (suc i) (suc i) slots (omega arith)))))
                (sync_node-AllSettled acc i node.style node.style.transitions h.0),
            sync_nodes-AllSettled (suc i) slots acc' h.1,
          )
        where
          above :
              (nodes : Nodes)
              → All (λ (n : ℕ × Node (ComputedStyle F ℤ)). suc i ≤ n.0) nodes
              → All (λ (n : ℕ × Node (ComputedStyle F ℤ)). n.0 ≢ i) nodes
          above [] g = tt
          above (n ∷ nodes) g = ((λ p. omega (arith, p, g.0)), above nodes g.1)

  start_all-baselines :
      (launches : List (Launch F)) (c : AnimationController F) (clock : ℕ → ℕ) (k : ℕ)
      → (start_all c launches clock k).baseline_styles ≡ c.baseline_styles
  unfolding start_all start_transition cancel_property
  start_all-baselines [] c clock k = refl
  start_all-baselines (l ∷ launches) c clock k =
      start_all-baselines launches (start_transition c l (clock k)) clock (suc k)

  -- If the numbers obey `FloatLaws` and the styles of a document are in range, then once the document
  -- is synchronised, a controller that still has the baselines of that synchronisation starts and
  -- cancels nothing when it is synchronised with the document again, whatever the time is and
  -- whichever transitions run.
  pub sync_transitions-quiet :
      (laws : FloatLaws fl) (doc : ThtmlDocument (ComputedStyle F ℤ))
      (in_range : All
        (λ (n : ℕ × Node (ComputedStyle F ℤ)). InRange fl n.1.style)
        (iter_from 0 doc.arena.nodes))
      (c d : AnimationController F) (now later : ℕ) (clock clock' : ℕ → ℕ)
      → d.baseline_styles ≡ (sync_transitions fl c doc now clock).baseline_styles
      → (sync_transitions fl d doc later clock').active_transitions ≡ d.active_transitions
  unfolding sync_transitions found start_all
  sync_transitions-quiet laws doc in_range c d now later clock clock' e =
      let nodes = iter_from 0 doc.arena.nodes in
      let b = (found fl c doc now).0 in
      let same : d.baseline_styles ≡ b =
        e ∙ start_all-baselines (found fl c doc now).1 (record c { baseline_styles = b }) clock 0 in
      let settled : All (NodeSettled d.baseline_styles) nodes =
        subst (λ b. All (NodeSettled b) nodes) (sym same)
          (sync_nodes-AllSettled c.active_transitions now laws 0 doc.arena.nodes
            (c.baseline_styles, []) in_range) in
      let none_launched : (found fl d doc later).1 ≡ [] =
        sync_nodes-settled d.active_transitions later nodes d.baseline_styles [] settled in
      ap
        (λ l.
          (start_all (record d { baseline_styles = (found fl d doc later).0 }) l clock'
            0).active_transitions)
        none_launched
