-- ===== src/Arena/Slots.antt =====
-- Allocation and removal: a live id is never handed out again, slots are reused and none is lost.
use oxiterm.Common.{
  ℕ, zero, suc, ◌^◌, ◌≤◌, ◌<◌, ◌≡◌, ◌≢◌, refl, ◌∙◌, ap, Option, none, some, List, [], ◌∷◌, ◌++◌,
  length, arith, inl, inr, get_elem?, set, All, length-set, length-append, get_elem?-set_self,
  get_elem?-set_ne, get_elem?-append_left, get_elem?-append_end, get_elem?-append_ne, get_elem?-lt,
  get_elem?-past, Option-cases, lt→ltb,
}
use oxiterm.Dom.{Node}
use oxiterm.Arena.{NodeArena, alloc, alloc_at, flat, get, remove}

-- No index stands on the free list twice.
abbrev pub IsDistinct : List ℕ → Type 0
IsDistinct [] = Unit
IsDistinct (i ∷ free) = All (λ j. i ≢ j) free × IsDistinct free

module _ {A : Type 0} where
  abbrev pub Dead : List (Option A) → List ℕ → Type 0
  Dead slots free = All (λ i. get_elem? slots i ≡ some none) free

  Dead-set :
      (slots : List (Option A)) (i : ℕ) (slot : Option A) (free : List ℕ)
      → All (λ j. i ≢ j) free
      → Dead slots free
      → Dead (set slots i slot) free
  Dead-set slots i slot [] ne h = tt
  Dead-set slots i slot (j ∷ free) ne h =
      (get_elem?-set_ne slots slot ne.0 ∙ h.0, Dead-set slots i slot free ne.1 h.1)

  Dead-append :
      (slots : List (Option A)) (slot : Option A) (free : List ℕ)
      → Dead slots free
      → Dead (slots ++ slot ∷ []) free
  Dead-append slots slot [] h = tt
  Dead-append slots slot (j ∷ free) h = (
    get_elem?-append_left slots (slot ∷ []) j (get_elem?-lt slots j h.0) ∙ h.0,
    Dead-append slots slot free h.1,
  )

  live-ne_free :
      (slots : List (Option A)) (i : ℕ) (x : A) (free : List ℕ)
      → get_elem? slots i ≡ some (some x)
      → Dead slots free
      → All (λ j. i ≢ j) free
  live-ne_free slots i x [] e h = tt
  live-ne_free slots i x (j ∷ free) e h =
      ((λ p. cc (e, h.0, ap (get_elem? slots) p)), live-ne_free slots i x free e h.1)

  -- Some dead slots are not on the free list exactly if the counts differ.
  unfoldable pub count_dead : List (Option A) → ℕ
  count_dead [] = 0
  count_dead (none ∷ slots) = suc (count_dead slots)
  count_dead (some x ∷ slots) = count_dead slots

  count_dead-append :
      (slots : List (Option A)) (x : A) → count_dead (slots ++ some x ∷ []) ≡ count_dead slots
  unfolding count_dead
  count_dead-append [] x = refl
  count_dead-append (none ∷ slots) x = ap suc (count_dead-append slots x)
  count_dead-append (some y ∷ slots) x = count_dead-append slots x

  count_dead-revive :
      (slots : List (Option A)) (i : ℕ) (x : A)
      → get_elem? slots i ≡ some none
      → suc (count_dead (set slots i (some x))) ≡ count_dead slots
  unfolding count_dead
  count_dead-revive [] i x h = cc
  count_dead-revive (none ∷ slots) zero x h = refl
  count_dead-revive (some y ∷ slots) zero x h = cc
  count_dead-revive (none ∷ slots) (suc i) x h = ap suc (count_dead-revive slots i x h)
  count_dead-revive (some y ∷ slots) (suc i) x h = count_dead-revive slots i x h

  count_dead-kill :
      (slots : List (Option A)) (i : ℕ) (x : A)
      → get_elem? slots i ≡ some (some x)
      → count_dead (set slots i none) ≡ suc (count_dead slots)
  unfolding count_dead
  count_dead-kill [] i x h = cc
  count_dead-kill (none ∷ slots) zero x h = cc
  count_dead-kill (some y ∷ slots) zero x h = refl
  count_dead-kill (none ∷ slots) (suc i) x h = ap suc (count_dead-kill slots i x h)
  count_dead-kill (some y ∷ slots) (suc i) x h = count_dead-kill slots i x h

-- The free list holds exactly the dead slots, each once, and ids fit in 32 bits.
pub record IsValid {Style : Type 0} (a : NodeArena Style) : Type 0 where
  pub free_dead : Dead a.nodes a.free_list
  pub distinct : IsDistinct a.free_list
  pub all_dead : length a.free_list ≡ count_dead a.nodes
  pub small : length a.nodes ≤ 2 ^ 32

-- What an allocation that does not panic does: it gives an id that was dead to the node, leaves all
-- other ids alone, and keeps the arena valid.
pub record Allocated {Style : Type 0} (a : NodeArena Style) (node : Node Style) (id : ℕ)
    (a' : NodeArena Style) : Type 0 where
  pub was_dead : get a id ≡ none
  pub holds : get a' id ≡ some node
  pub others : (j : ℕ) → id ≢ j → get a' j ≡ get a j
  pub valid : IsValid a'

pub record Removed {Style : Type 0} (a : NodeArena Style) (id : ℕ) (a' : NodeArena Style)
    : Type 0 where
  pub gone : get a' id ≡ none
  pub others : (j : ℕ) → id ≢ j → get a' j ≡ get a j
  pub valid : IsValid a'

module _ {Style : Type 0} where
  -- A slot that is written alone changes the answers of `get` for its id alone.
  reuse-Allocated :
      (slots : List (Option (Node Style))) (index : ℕ) (free : List ℕ) (node : Node Style)
      → IsValid (record { nodes = slots; free_list = index ∷ free })
      → Allocated
          (record { nodes = slots; free_list = index ∷ free })
          node
          index
          (record { nodes = set slots index (some node); free_list = free })
  unfolding get
  reuse-Allocated slots index free node v = record {
    was_dead = ap flat v.free_dead.0;
    holds =
        ap flat
          (get_elem?-set_self slots index (some node) (get_elem?-lt slots index v.free_dead.0));
    others = λ j ne. ap flat (get_elem?-set_ne slots (some node) ne);
    valid = record {
      free_dead = Dead-set slots index (some node) free v.distinct.0 v.free_dead.1;
      distinct = v.distinct.1;
      all_dead = omega (arith, v.all_dead, count_dead-revive slots index node v.free_dead.0);
      small = omega (arith, v.small, length-set slots index (some node));
    };
  }

  grow-Allocated :
      (slots : List (Option (Node Style))) (node : Node Style)
      → IsValid (record { nodes = slots; free_list = [] })
      → length slots < 2 ^ 32
      → Allocated
          (record { nodes = slots; free_list = [] })
          node
          (length slots)
          (record { nodes = slots ++ some node ∷ []; free_list = [] })
  unfolding get
  grow-Allocated slots node v lt = record {
    was_dead = ap flat (get_elem?-past slots (length slots) (omega arith));
    holds = ap flat (get_elem?-append_end slots (some node));
    others = λ j ne. ap flat (get_elem?-append_ne slots (some node) j ne);
    valid = record {
      free_dead = tt;
      distinct = tt;
      all_dead = omega (arith, v.all_dead, count_dead-append slots node);
      small = omega (arith, length-append slots (some node ∷ []));
    };
  }

  alloc_at-Allocated :
      (slots : List (Option (Node Style))) (free : List ℕ) (node : Node Style)
      → let a : NodeArena Style = record { nodes = slots; free_list = free } in
        IsValid a
        → (free ≡ [] → length slots < 2 ^ 32)
        → (id : ℕ) × (a' : NodeArena Style) × (alloc_at a node free ≡ some (id, a'))
          × Allocated a node id a'
  unfolding alloc_at
  alloc_at-Allocated slots [] node v room = (
    length slots,
    record { nodes = slots ++ some node ∷ []; free_list = [] },
    rw (lt→ltb (length slots) (2 ^ 32) (room refl)),
    grow-Allocated slots node v (room refl),
  )
  alloc_at-Allocated slots (index ∷ free) node v room = (
    index,
    record { nodes = set slots index (some node); free_list = free },
    rw (lt→ltb index (length slots) (get_elem?-lt slots index v.free_dead.0)),
    reuse-Allocated slots index free node v,
  )

  -- In a valid arena with a free slot, or with fewer than 2^32 slots, `alloc` does not panic: it
  -- returns an id that was dead and makes it hold the node, every other id keeps what it held, and
  -- the arena stays valid.
  pub alloc-Allocated :
      (a : NodeArena Style) (node : Node Style)
      → IsValid a
      → (a.free_list ≡ [] → length a.nodes < 2 ^ 32)
      → (id : ℕ) × (a' : NodeArena Style) × (alloc a node ≡ some (id, a')) × Allocated a node id a'
  unfolding alloc
  alloc-Allocated a node = alloc_at-Allocated a.nodes a.free_list node

  remove-dead : (a : NodeArena Style) (id : ℕ) → get a id ≡ none → remove a id ≡ a
  unfolding remove
  remove-dead a id h = rw (h, remove)

  remove-live :
      (a : NodeArena Style) (id : ℕ) (node : Node Style)
      → get a id ≡ some node
      → remove a id ≡ record { nodes = set a.nodes id none; free_list = id ∷ a.free_list }
  unfolding remove
  remove-live a id node h = rw (h, remove)

  flat-some :
      (slot : Option (Option (Node Style))) (node : Node Style)
      → flat slot ≡ some node
      → slot ≡ some (some node)
  flat-some none node h = cc
  flat-some (some none) node h = cc
  flat-some (some (some n)) node h = ap some h

  slot-Removed :
      (a : NodeArena Style) (id : ℕ) (node : Node Style)
      → IsValid a
      → get_elem? a.nodes id ≡ some (some node)
      → Removed a id (record { nodes = set a.nodes id none; free_list = id ∷ a.free_list })
  unfolding get
  slot-Removed a id node v e = record {
    gone = ap flat (get_elem?-set_self a.nodes id none (get_elem?-lt a.nodes id e));
    others = λ j ne. ap flat (get_elem?-set_ne a.nodes none ne);
    valid = record {
      free_dead = (
        get_elem?-set_self a.nodes id none (get_elem?-lt a.nodes id e),
        Dead-set a.nodes id none a.free_list
            (live-ne_free a.nodes id node a.free_list e v.free_dead) v.free_dead,
      );
      distinct = (live-ne_free a.nodes id node a.free_list e v.free_dead, v.distinct);
      all_dead = omega (arith, v.all_dead, count_dead-kill a.nodes id node e);
      small = omega (arith, v.small, length-set a.nodes id none);
    };
  }

  -- `remove` makes its id dead, whether it was live or not, leaves every other id alone, and keeps
  -- the arena valid.
  pub remove-Removed : (a : NodeArena Style) (id : ℕ) → IsValid a → Removed a id (remove a id)
  remove-Removed a id v = elim (Option-cases (get a id)) [
    | inl dead ↦
        rw (remove-dead a id dead) (record { gone = dead; others = λ j ne. refl; valid = v })
    | inr (node, e) ↦
        rw (remove-live a id node e)
          (slot-Removed a id node v (unfold get in flat-some (get_elem? a.nodes id) node e))
  ]
