-- ===== src/State/Patch/Limits.antt =====
-- The sizes of what a patch of the application server stores.
use oxiterm.Common.{
  ◌≡◌, refl, ap, ◌∙◌, Bool, true, false, ◌&&◌, ◌==◌, Option, none, some, List, [], ◌∷◌, arith,
  if◌then◌else◌, Bool-cases, inl, inr, ltb, leb, length, le→leb, ltb→ge,
}
use oxiterm.Common.Texts.{byte_len, Text, codes, text_eq, text_eq_self}
use oxiterm.State.{StateValue, int, str, bool, list, StateManager, get, set, is_reserved}
use oxiterm.State.Lookup.{get-set_cases}
use oxiterm.State.Patch.{
  Json, null, boolean, number, string, array, object, Jsons, no_items, item, Fields, no_fields,
  field, app_token, set_app_token, short_text, item_list, state_val, arr_len, patch_key, patch_keys,
  apply_state_patch, take_field, obj_len,
}
use oxiterm.State.Patch.Keys.{token-Tracked}

pub all_short : List Text → Bool
all_short [] = true
all_short (s ∷ items) = leb (byte_len s) 65536 && all_short items

-- Whether a value is within the limits of the server.
pub is_small : StateValue → Bool
unfolding all_short
is_small (int i) = true
is_small (bool b) = true
is_small (str s) = leb (byte_len s) 65536
is_small (list items) = leb (length items) 1000 && all_short items

abbrev pub all_small : Option StateValue → Bool
all_small none = true
all_small (some v) = is_small v

short_text-small : (s : Text) → all_small (short_text s) ≡ true
unfolding is_small short_text
short_text-small s = elim (Bool-cases (ltb 65536 (byte_len s))) [
  | inl e ↦ rw (short_text, e) refl
  | inr e ↦ rw (short_text, e) (le→leb (byte_len s) 65536 (ltb→ge 65536 (byte_len s) e))
]

module _ (to_string : Json → Text) where
  item_list-length :
      (arr : Jsons)
      → elim (item_list to_string arr) [ none ↦ true | some items ↦ length items == arr_len arr ]
        ≡ true
  unfolding item_list arr_len
  item_list-length no_items = refl
  item_list-length (item v arr) = ground (arith, item_list-length arr)

  item_list-short :
      (arr : Jsons)
      → elim (item_list to_string arr) [ none ↦ true | some items ↦ all_short items ] ≡ true
  unfolding item_list all_short
  item_list-short no_items = refl
  item_list-short (item v arr) = ground (arith, item_list-short arr)

  state_val-small : (v : Json) → all_small (state_val to_string v) ≡ true
  unfolding state_val is_small
  state_val-small null = refl
  state_val-small (boolean b) = refl
  state_val-small (number (some i) s) = refl
  state_val-small (number none s) = short_text-small s
  state_val-small (string s) = short_text-small s
  state_val-small (array arr) = ground (arith, item_list-length arr, item_list-short arr)
  state_val-small (object obj) = short_text-small (to_string (object obj))

-- What is small stays small.
StaysSmall : Text → StateManager → StateManager → Type 0
StaysSmall k s s' = all_small (get s k) ≡ true → all_small (get s' k) ≡ true

if_StaysSmall :
    (k : Text) (s : StateManager) (b : Bool) (t u : StateManager)
    → StaysSmall k s t
    → StaysSmall k s u
    → StaysSmall k s (if b then t else u)
if_StaysSmall k s true t u p q = p
if_StaysSmall k s false t u p q = q

if_small_first :
    (k : Text) (b : Bool) (t u : StateManager × Option Text)
    → all_small (get t.0 k) ≡ true
    → all_small (get u.0 k) ≡ true
    → all_small (get (if b then t else u).0 k) ≡ true
if_small_first k true t u p q = p
if_small_first k false t u p q = q

set_val-StaysSmall :
    (s : StateManager) (key k : Text) (o : Option StateValue)
    → all_small o ≡ true
    → StaysSmall k s (elim o [ none ↦ s | some v ↦ set s key v ])
unfolding StaysSmall
set_val-StaysSmall s key k none h = λ g. g
set_val-StaysSmall s key k (some v) h =
    λ g. elim (get-set_cases s key k v) [ inl e ↦ ap all_small e ∙ g | inr e ↦ ap all_small e ∙ h ]

module _ (to_string : Json → Text) (k : Text) where
  keys-StaysSmall : (obj : Fields) (s : StateManager) → StaysSmall k s (patch_keys to_string s obj)
  unfolding patch_keys patch_key StaysSmall
  keys-StaysSmall no_fields s = λ g. g
  keys-StaysSmall (field key val obj) s = λ g. keys-StaysSmall obj (patch_key to_string s key val) (
      if_StaysSmall k s (is_reserved key) s _ (λ h. h)
        (if_StaysSmall k s (ltb 256 (byte_len key)) s _ (λ h. h)
          (set_val-StaysSmall s key k (state_val to_string val) (state_val-small to_string val)))
        g)

  token-same :
      (s : StateManager) (tok : Option Json)
      → text_eq app_token k ≡ false
      → get (set_app_token to_string s tok).0 k ≡ get s k
  token-same s tok h =
      (token-Tracked to_string (text_eq app_token) (text_eq_self app_token) s tok).allowed k h

-- A patch keeps each value but the application's token within the limits, whatever the texts of
-- its values are: at most 64 KiB for a text, and at most 1000 such texts for a list.
pub apply_state_patch-small :
    (to_string : Json → Text) (s : StateManager) (patch : Json) (k : Text)
    → text_eq app_token k ≡ false
    → all_small (get s k) ≡ true
    → all_small (get (apply_state_patch to_string s patch).0 k) ≡ true
unfolding apply_state_patch StaysSmall
apply_state_patch-small to_string s (object obj) k other g =
    let (tok_val, rest) = take_field (codes "set_app_token") obj in
    let s' = (set_app_token to_string s tok_val).0 in
    let g' : all_small (get s' k) ≡ true =
      ap all_small (token-same to_string k s tok_val other) ∙ g in
    if_small_first k (ltb 100 (obj_len rest)) (s', (set_app_token to_string s tok_val).1)
      (patch_keys to_string s' rest, (set_app_token to_string s tok_val).1) g'
      (keys-StaysSmall to_string k rest s' g')
apply_state_patch-small to_string s null k other g = g
apply_state_patch-small to_string s (boolean b) k other g = g
apply_state_patch-small to_string s (number i t) k other g = g
apply_state_patch-small to_string s (string t) k other g = g
apply_state_patch-small to_string s (array arr) k other g = g
