-- ===== src/Arena/Updates.antt =====
-- What an update and an allocation behind the last slot leave.
use oxiterm.Common.{
  ℕ, suc, ◌^◌, ◌<◌, ◌≡◌, ◌≢◌, sym, ap, ◌∙◌, Option, none, some, [], ◌∷◌, ◌++◌, length, arith,
  get_elem?, set, length-set, length-append, get_elem?-set_self, get_elem?-set_ne, get_elem?-lt,
  get_elem?-append_left, get_elem?-append_end, lt→ltb, if◌then◌else◌,
}
use oxiterm.Dom.{Node}
use oxiterm.Arena.{NodeArena, alloc, alloc_at, flat, get, update}

-- An arena that has only grown: no slot is free.
pub record Grown {Style : Type 0} (a : NodeArena Style) (n : ℕ) : Type 0 where
  pub no_free : a.free_list ≡ []
  pub size : length a.nodes ≡ n

module _ {Style : Type 0} where
  flat-in :
      (slot : Option (Option (Node Style))) (node : Node Style)
      → flat slot ≡ some node
      → slot ≡ some (some node)
  flat-in none node h = cc
  flat-in (some none) node h = cc
  flat-in (some (some n)) node h = ap some h

  pub get-lt :
      (a : NodeArena Style) (id : ℕ) (node : Node Style)
      → get a id ≡ some node
      → id < length a.nodes
  unfolding get
  get-lt a id node h = get_elem?-lt a.nodes id (flat-in (get_elem? a.nodes id) node h)

  update-live :
      (a : NodeArena Style) (id : ℕ) (node : Node Style) (f : Node Style → Node Style)
      → get a id ≡ some node
      → update a id f ≡ record a { nodes = set a.nodes id (some (f node)) }
  unfolding update
  update-live a id node f h =
      ap
        (λ o. elim o as (λ _. NodeArena Style) [
          | none ↦ a
          | some n ↦ record a { nodes = set a.nodes id (some (f n)) }
        ])
        h

  pub get-update_self :
      (a : NodeArena Style) (id : ℕ) (node : Node Style) (f : Node Style → Node Style)
      → get a id ≡ some node
      → get (update a id f) id ≡ some (f node)
  unfolding get
  get-update_self a id node f h =
      ap (λ (b : NodeArena Style). get b id) (update-live a id node f h)
      ∙ ap flat (get_elem?-set_self a.nodes id (some (f node)) (get-lt a id node h))

  pub get-update_other :
      (a : NodeArena Style) (id j : ℕ) (node : Node Style) (f : Node Style → Node Style)
      → get a id ≡ some node
      → id ≢ j
      → get (update a id f) j ≡ get a j
  unfolding get
  get-update_other a id j node f h ne =
      ap (λ (b : NodeArena Style). get b j) (update-live a id node f h)
      ∙ ap flat (get_elem?-set_ne a.nodes (some (f node)) ne)

  pub update-Grown :
      (a : NodeArena Style) (id n : ℕ) (node : Node Style) (f : Node Style → Node Style)
      → get a id ≡ some node
      → Grown a n
      → Grown (update a id f) n
  update-Grown a id n node f h g = record {
    no_free = ap (λ (b : NodeArena Style). b.free_list) (update-live a id node f h) ∙ g.no_free;
    size =
        ap (λ (b : NodeArena Style). length b.nodes) (update-live a id node f h)
        ∙ length-set a.nodes id (some (f node))
        ∙ g.size;
  }

  -- The next slot.
  abbrev pub pushed : NodeArena Style → Node Style → NodeArena Style
  pushed a node = record a { nodes = a.nodes ++ some node ∷ [] }

  pub alloc-pushed :
      (a : NodeArena Style) (n : ℕ) (node : Node Style)
      → Grown a n
      → n < 2 ^ 32
      → alloc a node ≡ some (n, pushed a node)
  unfolding alloc alloc_at
  alloc-pushed a n node g lt =
      let room : length a.nodes < 2 ^ 32 = omega (arith, g.size, lt) in
      ap (alloc_at a node) g.no_free
      ∙ ap (λ b. if b then some (length a.nodes, pushed a node) else none)
          (lt→ltb (length a.nodes) (2 ^ 32) room)
      ∙ ap (λ m. some (m, pushed a node)) g.size

  pub pushed-Grown :
      (a : NodeArena Style) (n : ℕ) (node : Node Style) → Grown a n → Grown (pushed a node) (suc n)
  pushed-Grown a n node g = record {
    no_free = g.no_free;
    size = omega (arith, length-append a.nodes (some node ∷ []), g.size);
  }

  pub get-pushed_self :
      (a : NodeArena Style) (n : ℕ) (node : Node Style)
      → Grown a n
      → get (pushed a node) n ≡ some node
  unfolding get
  get-pushed_self a n node g =
      ap (λ m. get (pushed a node) m) (sym g.size)
      ∙ ap flat (get_elem?-append_end a.nodes (some node))

  pub get-pushed_other :
      (a : NodeArena Style) (node m : Node Style) (j : ℕ)
      → get a j ≡ some m
      → get (pushed a node) j ≡ some m
  unfolding get
  get-pushed_other a node m j h =
      ap flat (get_elem?-append_left a.nodes (some node ∷ []) j (get-lt a j m h)) ∙ h
