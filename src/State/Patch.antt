-- ===== src/State/Patch.antt =====
-- oxiterm-server/src/session.rs, ClientSession::apply_state_patch: what the application server's
-- patch writes to the state. A JSON value is one of the crate serde_json; a number is what its
-- as_i64 and to_string give, and the text of the other values is a parameter.
pub mod Keys
pub mod Limits
mod Tests
use oxiterm.Common.{
  ℕ, zero, suc, ◌+◌, Bool, true, false, not, Option, none, some, List, [], ◌∷◌, ltb, if◌then◌else◌,
}
use oxiterm.Common.Texts.{Text, codes, text_eq, is_empty_text, starts_with, byte_len}
use oxiterm.Common.Int.{ℤ}
use oxiterm.State.{StateValue, int, str, bool, list, StateManager, get, set, remove, is_reserved}

mutual
  pub data Json : Type 0 where
    null : Json
    boolean : Bool → Json
    number : Option ℤ → Text → Json
    string : Text → Json
    array : Jsons → Json
    object : Fields → Json

  pub data Jsons : Type 0 where
    no_items : Jsons
    item : Json → Jsons → Jsons

  pub data Fields : Type 0 where
    no_fields : Fields
    field : Text → Json → Fields → Fields

unfoldable pub arr_len : Jsons → ℕ
arr_len no_items = 0
arr_len (item _ arr) = suc (arr_len arr)

pub obj_len : Fields → ℕ
obj_len no_fields = 0
obj_len (field _ _ obj) = suc (obj_len obj)

-- `Map::remove`: the value of a key, and the rest.
unfoldable pub take_field : Text → Fields → Option Json × Fields
take_field k no_fields = (none, no_fields)
take_field k (field j v obj) =
    let (found, rest) = take_field k obj in
    if text_eq j k then (some v, obj) else (found, field j v rest)

abbrev pub app_token : Text
app_token = codes "_app_token"

abbrev pub current_token : Option StateValue → Text
current_token (some (str s)) = s
current_token _ = []

-- A text that is not too long to be stored.
unfoldable pub short_text : Text → Option StateValue
unfolding byte_len
short_text s = if ltb 65536 (byte_len s) then none else some (str s)

module _ (to_string : Json → Text) where
  abbrev pub token_text : Json → Text
  token_text (string s) = s
  token_text null = []
  token_text other = to_string other

  -- The token is written if it is a new one, and then sent to web clients.
  unfoldable pub set_app_token : StateManager → Option Json → StateManager × Option Text
  unfolding get set remove text_eq
  set_app_token s none = (s, none)
  set_app_token s (some tok_val) =
      let tok_str = token_text tok_val in
      if text_eq tok_str (current_token (get s app_token))
      then (s, none)
      else if is_empty_text tok_str
      then (remove s app_token, some tok_str)
      else (set s app_token (str tok_str), some tok_str)

  abbrev pub item_text : Json → Text
  item_text (string st) = st
  item_text other = to_string other

  -- The loop over the items; none if one is too long.
  unfoldable pub item_list : Jsons → Option (List Text)
  unfolding byte_len
  item_list no_items = some []
  item_list (item v arr) =
      let rest = item_list arr in
      let s = item_text v in
      if ltb 65536 (byte_len s)
      then none
      else elim rest [ none ↦ none | some items ↦ some (s ∷ items) ]

  -- The value for the state, none if it is skipped.
  unfoldable pub state_val : Json → Option StateValue
  unfolding byte_len item_list arr_len short_text
  state_val (number (some i) _) = some (int i)
  state_val (number none s) = short_text s
  state_val (string s) = short_text s
  state_val (boolean b) = some (bool b)
  state_val (array arr) =
      if ltb 1000 (arr_len arr)
      then none
      else elim (item_list arr) [ none ↦ none | some items ↦ some (list items) ]
  state_val null = some (str [])
  state_val (object obj) = short_text (to_string (object obj))

  unfoldable pub patch_key : StateManager → Text → Json → StateManager
  unfolding set state_val byte_len starts_with
  patch_key s key val =
      if is_reserved key
      then s
      else if ltb 256 (byte_len key)
      then s
      else elim (state_val val) [ none ↦ s | some v ↦ set s key v ]

  -- The loop over the keys.
  unfoldable pub patch_keys : StateManager → Fields → StateManager
  unfolding patch_key
  patch_keys s no_fields = s
  patch_keys s (field key val obj) = patch_keys (patch_key s key val) obj

  -- The new state, and the token that is sent if there is one.
  unfoldable pub apply_state_patch : StateManager → Json → StateManager × Option Text
  unfolding take_field set_app_token patch_keys obj_len
  apply_state_patch s (object obj) =
      let (tok_val, obj) = take_field (codes "set_app_token") obj in
      let (s, sent) = set_app_token s tok_val in
      if ltb 100 (obj_len obj) then (s, sent) else (patch_keys s obj, sent)
  apply_state_patch s _ = (s, none)
