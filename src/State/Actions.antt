-- ===== src/State/Actions.antt =====
-- What actions change: no reserved key, and nothing without marking its key dirty.
use oxiterm.Common.{
  ℕ, ◌≡◌, ◌≢◌, ◌⊎◌, refl, sym, subst, ◌∙◌, ap, Bool, true, false, not, ◌||◌, Option, none, some,
  List, [], ◌∷◌, ◌++◌, arith, if◌then◌else◌, Bool-cases, Option-cases, inl, inr, ◌==◌,
}
use oxiterm.Common.Texts.{
  Text, codes, text_eq, text_eq_iff, text_eq_self, split_once, split_if, trim, is_empty_text,
}
use oxiterm.Common.TextMap.{
  TextMap, value_of, insert, without, has, add, value_of-insert, value_of-without, has-add,
}
use oxiterm.State.{
  StateValue, list, StateManager, get, set, remove, run_command, apply_action_single, apply_parts,
  apply_action, is_reserved, key_and_value, append, holds, set_if, take_out, current_list,
  get_dirty_nodes, nodes_of, subscribers,
}

-- From a state to a later one only the keys of a set have changed, each is dirty, and no key has
-- become clean.
pub record Tracked (may : Text → Bool) (s s' : StateManager) : Type 0 where
  pub allowed : (k : Text) → may k ≡ false → get s' k ≡ get s k
  pub marked : (k : Text) → (get s' k ≡ get s k) ⊎ (has s'.dirty_keys k ≡ true)
  pub stays : (k : Text) → has s.dirty_keys k ≡ true → has s'.dirty_keys k ≡ true
  pub subscriptions : s'.subscriptions ≡ s.subscriptions

or_true : (a b : Bool) → b ≡ true → (a || b) ≡ true
or_true a b h = ground arith

take_out-get : (s : StateManager) (key : Text) → get (take_out s key) key ≡ none
unfolding get
take_out-get s key =
    value_of-without s.store key key
    ∙ ap (λ b. if b then none else value_of s.store key) (text_eq_self key)

set-absent :
    (s : StateManager) (key : Text) (v : StateValue)
    → get s key ≡ none
    → set s key v ≡ record s { store = insert s.store key v; dirty_keys = add s.dirty_keys key }
unfolding set
set-absent s key v h = rw (set, h) refl

module _ (may : Text → Bool) where
  apart : (key k : Text) → may key ≡ true → may k ≡ false → text_eq key k ≡ false
  apart key k m h = elim (Bool-cases (text_eq key k)) [
    | inl e ↦ cc (ap may ((text_eq_iff key k).0 e))
    | inr e ↦ e
  ]

  pub Tracked-refl : (s : StateManager) → Tracked may s s
  Tracked-refl s = record {
    allowed = λ k h. refl;
    marked = λ k. inl refl;
    stays = λ k h. h;
    subscriptions = refl;
  }

  pub Tracked-trans : (s t u : StateManager) → Tracked may s t → Tracked may t u → Tracked may s u
  Tracked-trans s t u p q = record {
    allowed = λ k h. q.allowed k h ∙ p.allowed k h;
    marked = λ k. elim (q.marked k) [
      | inr d ↦ inr d
      | inl e ↦ elim (p.marked k) [ inl e' ↦ inl (e ∙ e') | inr d ↦ inr (q.stays k d) ]
    ];
    stays = λ k h. q.stays k (p.stays k h);
    subscriptions = q.subscriptions ∙ p.subscriptions;
  }

  pub if_Tracked :
      (s : StateManager) (b : Bool) (t u : StateManager)
      → Tracked may s t
      → Tracked may s u
      → Tracked may s (if b then t else u)
  if_Tracked s true t u p q = p
  if_Tracked s false t u p q = q

  -- The store has changed at one key, which is dirty.
  Tracked-at :
      (s : StateManager) (key : Text) (store : TextMap StateValue)
      → may key ≡ true
      → ((k : Text) → text_eq key k ≡ false → value_of store k ≡ value_of s.store k)
      → Tracked may s (record s { store = store; dirty_keys = add s.dirty_keys key })
  unfolding get
  Tracked-at s key store m others = record {
    allowed = λ k h. others k (apart key k m h);
    marked = λ k. elim (Bool-cases (text_eq key k)) [
      | inl e ↦ inr (has-add s.dirty_keys key k ∙ ap (λ b. b || has s.dirty_keys k) e)
      | inr e ↦ inl (others k e)
    ];
    stays = λ k h. has-add s.dirty_keys key k ∙ or_true (text_eq key k) (has s.dirty_keys k) h;
    subscriptions = refl;
  }

  pub set-Tracked :
      (s : StateManager) (key : Text) (v : StateValue)
      → may key ≡ true
      → Tracked may s (set s key v)
  unfolding set
  set-Tracked s key v m = elim (Bool-cases (holds (get s key) v)) [
    | inl e ↦ rw e (Tracked-refl s)
    | inr e ↦ rw e (
        Tracked-at s key (insert s.store key v) m (λ k ne.
          value_of-insert s.store key k v ∙ ap (λ b. if b then some v else value_of s.store k) ne))
  ]

  pub remove-Tracked :
      (s : StateManager) (key : Text) → may key ≡ true → Tracked may s (remove s key)
  unfolding remove
  remove-Tracked s key m = elim (Option-cases (get s key)) [
    | inl e ↦ rw (remove, e) (Tracked-refl s)
    | inr (v, e) ↦
        rw (remove, e)
          (Tracked-at s key (without s.store key) m (λ k ne.
            value_of-without s.store key k ∙ ap (λ b. if b then none else value_of s.store k) ne))
  ]

  append-Tracked :
      (s : StateManager) (key : Text) (val : Option Text)
      → may key ≡ true
      → Tracked may s (append s key val)
  unfolding append
  append-Tracked s key none m = Tracked-refl s
  append-Tracked s key (some v) m =
      let l = list (current_list (get s key) ++ v ∷ []) in
      subst (λ u. Tracked may s u) (sym (set-absent (take_out s key) key l (take_out-get s key)))
        (Tracked-at s key (insert (without s.store key) key l) m (λ k ne.
          value_of-insert (without s.store key) key k l
          ∙ ap (λ b. if b then some l else value_of (without s.store key) k) ne
          ∙ value_of-without s.store key k
          ∙ ap (λ b. if b then none else value_of s.store k) ne))

  set_if-Tracked :
      (s : StateManager) (key : Text) (o : Option StateValue)
      → may key ≡ true
      → Tracked may s (set_if s key o)
  set_if-Tracked s key none m = Tracked-refl s
  set_if-Tracked s key (some v) m = set-Tracked s key v m

  run_command-Tracked :
      (s : StateManager) (cmd key : Text) (val : Option Text)
      → may key ≡ true
      → Tracked may s (run_command s cmd key val)
  unfolding run_command
  run_command-Tracked s cmd key val m =
      if_Tracked s (text_eq cmd (codes "inc")) _ _ (set-Tracked s key _ m) (
        if_Tracked s (text_eq cmd (codes "dec")) _ _ (set-Tracked s key _ m) (
          if_Tracked s (text_eq cmd (codes "toggle")) _ _ (set-Tracked s key _ m) (
            if_Tracked s (text_eq cmd (codes "set")) _ _ (set_if-Tracked s key _ m) (
              if_Tracked s (text_eq cmd (codes "append")) _ _ (append-Tracked s key val m) (
                if_Tracked s (text_eq cmd (codes "clear")) _ _ (set_if-Tracked s key _ m)
                  (Tracked-refl s))))))

unreserved : Text → Bool
unreserved k = not (is_reserved k)

parsed-Tracked :
    (s : StateManager) (o : Option (Text × Text))
    → Tracked unreserved s (elim o [
      | none ↦ s
      | some (cmd, rest) ↦
          let (key, val) = key_and_value rest in
          if is_reserved key then s else run_command s cmd key val
    ])
unfolding unreserved
parsed-Tracked s none = Tracked-refl unreserved s
parsed-Tracked s (some (cmd, rest)) = elim (Bool-cases (is_reserved (key_and_value rest).0)) [
  | inl e ↦ rw e (Tracked-refl unreserved s)
  | inr e ↦ rw e (
      run_command-Tracked unreserved s cmd (key_and_value rest).0 (key_and_value rest).1 (ap not e))
]

single-Tracked :
    (s : StateManager) (action : Text) → Tracked unreserved s (apply_action_single s action)
unfolding apply_action_single unreserved
single-Tracked s action = parsed-Tracked s (split_once b':' action)

parts-Tracked : (parts : List Text) (s : StateManager) → Tracked unreserved s (apply_parts s parts)
unfolding apply_parts
parts-Tracked [] s = Tracked-refl unreserved s
parts-Tracked (part ∷ parts) s =
    let s' = if is_empty_text (trim part) then s else apply_action_single s (trim part) in
    Tracked-trans unreserved s s' (apply_parts s' parts)
      (if_Tracked unreserved s (is_empty_text (trim part)) _ _ (Tracked-refl unreserved s)
        (single-Tracked s (trim part)))
      (parts-Tracked parts s')

-- An action leaves every reserved key, one that starts with an underscore, as it was.
pub apply_action-reserved :
    (s : StateManager) (action k : Text)
    → is_reserved k ≡ true
    → get (apply_action s action) k ≡ get s k
unfolding apply_action unreserved
apply_action-reserved s action k h =
    (parts-Tracked (split_if (λ c. (c == b';') || (c == b',')) action) s).allowed k (ap not h)

unfoldable pub in_list : ℕ → List ℕ → Bool
in_list n [] = false
in_list n (i ∷ l) = (i == n) || in_list n l

in_list-append : (n : ℕ) (l m : List ℕ) → in_list n (l ++ m) ≡ (in_list n l || in_list n m)
unfolding in_list
in_list-append n [] m = refl
in_list-append n (i ∷ l) m = ground (arith, in_list-append n l m)

-- Every subscriber of a key among some is among their nodes.
nodes_of-has :
    (s : StateManager) (keys : List Text) (k : Text) (n : ℕ)
    → has keys k ≡ true
    → in_list n (subscribers s k) ≡ true
    → in_list n (nodes_of s keys) ≡ true
unfolding has nodes_of
nodes_of-has s [] k n h i = cc
nodes_of-has s (j ∷ keys) k n h i = elim (Bool-cases (text_eq j k)) [
  | inl e ↦
      in_list-append n (subscribers s j) (nodes_of s keys)
      ∙ ap (λ b. b || in_list n (nodes_of s keys))
          (ap (λ z. in_list n (subscribers s z)) ((text_eq_iff j k).0 e) ∙ i)
  | inr e ↦
      in_list-append n (subscribers s j) (nodes_of s keys)
      ∙ or_true (in_list n (subscribers s j)) (in_list n (nodes_of s keys))
          (nodes_of-has s keys k n (sym (ap (λ b. b || has keys k) e) ∙ h) i)
]

pub Tracked-dirty :
    (may : Text → Bool) (s s' : StateManager)
    → Tracked may s s'
    → (k : Text) (n : ℕ) → get s' k ≢ get s k
    → in_list n (subscribers s k) ≡ true
    → in_list n (get_dirty_nodes s').0 ≡ true
unfolding get_dirty_nodes
Tracked-dirty may s s' p k n changed i = elim (p.marked k) [
  | inl e ↦ absurd (changed e)
  | inr d ↦ nodes_of-has s' s'.dirty_keys k n d (
      ap
        (λ (m : TextMap (List ℕ)).
          in_list n (elim (value_of m k) [ none ↦ [] | some nodes ↦ nodes ]))
        p.subscriptions
      ∙ i)
]

-- If an action changes the value of a key, each node that is subscribed to the key is among the
-- dirty nodes behind the action.
pub apply_action-dirty :
    (s : StateManager) (action k : Text) (n : ℕ)
    → get (apply_action s action) k ≢ get s k
    → in_list n (subscribers s k) ≡ true
    → in_list n (get_dirty_nodes (apply_action s action)).0 ≡ true
unfolding apply_action
apply_action-dirty s action k n changed i =
    Tracked-dirty unreserved s (apply_action s action)
      (parts-Tracked (split_if (λ c. (c == b';') || (c == b',')) action) s) k n changed i
