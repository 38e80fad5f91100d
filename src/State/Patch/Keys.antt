-- ===== src/State/Patch/Keys.antt =====
-- Which keys a patch of the application server changes.
use oxiterm.Common.{
  ℕ, ◌≡◌, ◌≢◌, refl, ap, ap₂, Bool, true, false, not, ◌||◌, Option, none, some, if◌then◌else◌,
  Bool-cases, inl, inr, ltb,
}
use oxiterm.Common.Texts.{byte_len, Text, codes, text_eq, starts_with, is_empty_text}
use oxiterm.State.{
  StateValue, str, StateManager, get, set, remove, is_reserved, subscribers, get_dirty_nodes,
}
use oxiterm.State.Actions.{
  Tracked, Tracked-refl, Tracked-trans, set-Tracked, remove-Tracked, if_Tracked, Tracked-dirty,
  in_list,
}
use oxiterm.State.Patch.{
  Json, null, boolean, number, string, array, object, Fields, no_fields, field, app_token,
  current_token, token_text, set_app_token, state_val, patch_key, patch_keys, apply_state_patch,
  take_field, obj_len,
}

-- What a patch may write.
pub writable : Text → Bool
writable k = not (is_reserved k) || text_eq app_token k

writable_token : writable app_token ≡ true
unfolding writable text_eq starts_with
writable_token = refl

writable_plain : (k : Text) → is_reserved k ≡ false → writable k ≡ true
unfolding writable
writable_plain k h = ap (λ b. not b || text_eq app_token k) h

if_Tracked_first :
    (may : Text → Bool) (s : StateManager) (b : Bool) (t u : StateManager × Option Text)
    → Tracked may s t.0
    → Tracked may s u.0
    → Tracked may s (if b then t else u).0
if_Tracked_first may s true t u p q = p
if_Tracked_first may s false t u p q = q

module _ (to_string : Json → Text) where
  pub token-Tracked :
      (may : Text → Bool)
      → may app_token ≡ true
      → (s : StateManager) (tok : Option Json) → Tracked may s (set_app_token to_string s tok).0
  unfolding set_app_token
  token-Tracked may w s none = Tracked-refl may s
  token-Tracked may w s (some tok_val) =
      let tok_str = token_text to_string tok_val in
      if_Tracked_first may s (text_eq tok_str (current_token (get s app_token))) _ _
        (Tracked-refl may s)
        (if_Tracked_first may s (is_empty_text tok_str) (remove s app_token, some tok_str)
          (set s app_token (str tok_str), some tok_str) (remove-Tracked may s app_token w)
          (set-Tracked may s app_token (str tok_str) w))

  set_val-Tracked :
      (s : StateManager) (key : Text) (o : Option StateValue)
      → writable key ≡ true
      → Tracked writable s (elim o [ none ↦ s | some v ↦ set s key v ])
  set_val-Tracked s key none w = Tracked-refl writable s
  set_val-Tracked s key (some v) w = set-Tracked writable s key v w

  key-Tracked :
      (s : StateManager) (key : Text) (val : Json)
      → Tracked writable s (patch_key to_string s key val)
  unfolding patch_key
  key-Tracked s key val = elim (Bool-cases (is_reserved key)) [
    | inl e ↦ rw e (Tracked-refl writable s)
    | inr e ↦ rw e (
        if_Tracked writable s (ltb 256 (byte_len key)) s
          (elim (state_val to_string val) [ none ↦ s | some v ↦ set s key v ])
          (Tracked-refl writable s)
          (set_val-Tracked s key (state_val to_string val) (writable_plain key e)))
  ]

  keys-Tracked : (obj : Fields) (s : StateManager) → Tracked writable s (patch_keys to_string s obj)
  unfolding patch_keys
  keys-Tracked no_fields s = Tracked-refl writable s
  keys-Tracked (field key val obj) s =
      let s' = patch_key to_string s key val in
      Tracked-trans writable s s' (patch_keys to_string s' obj) (key-Tracked s key val)
        (keys-Tracked obj s')

  object-Tracked :
      (s : StateManager) (obj : Fields)
      → Tracked writable s (apply_state_patch to_string s (object obj)).0
  unfolding apply_state_patch
  object-Tracked s obj =
      let (tok_val, rest) = take_field (codes "set_app_token") obj in
      let (s', sent) = set_app_token to_string s tok_val in
      if_Tracked_first writable s (ltb 100 (obj_len rest)) (s', sent)
        (patch_keys to_string s' rest, sent) (token-Tracked writable writable_token s tok_val)
        (Tracked-trans writable s s' (patch_keys to_string s' rest)
          (token-Tracked writable writable_token s tok_val) (keys-Tracked rest s'))

  patch-Tracked :
      (s : StateManager) (patch : Json) → Tracked writable s (apply_state_patch to_string s patch).0
  unfolding apply_state_patch
  patch-Tracked s null = Tracked-refl writable s
  patch-Tracked s (boolean b) = Tracked-refl writable s
  patch-Tracked s (number i t) = Tracked-refl writable s
  patch-Tracked s (string t) = Tracked-refl writable s
  patch-Tracked s (array arr) = Tracked-refl writable s
  patch-Tracked s (object obj) = object-Tracked s obj

-- Of the reserved keys a patch changes at most `_app_token`, whatever the texts of its values are.
pub apply_state_patch-reserved :
    (to_string : Json → Text) (s : StateManager) (patch : Json) (k : Text)
    → is_reserved k ≡ true
    → text_eq app_token k ≡ false
    → get (apply_state_patch to_string s patch).0 k ≡ get s k
unfolding writable
apply_state_patch-reserved to_string s patch k h other =
    (patch-Tracked to_string s patch).allowed k (ap₂ (λ a b. not a || b) h other)

-- If a patch changes the value of a key, each node that is subscribed to the key is among the
-- dirty nodes behind the patch, whatever the texts of its values are.
pub apply_state_patch-dirty :
    (to_string : Json → Text) (s : StateManager) (patch : Json) (k : Text) (n : ℕ)
    → get (apply_state_patch to_string s patch).0 k ≢ get s k
    → in_list n (subscribers s k) ≡ true
    → in_list n (get_dirty_nodes (apply_state_patch to_string s patch).0).0 ≡ true
apply_state_patch-dirty to_string s patch k n changed i =
    Tracked-dirty writable s (apply_state_patch to_string s patch).0
      (patch-Tracked to_string s patch) k n changed i
