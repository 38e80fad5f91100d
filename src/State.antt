-- ===== src/State.antt =====
-- oxiterm-server/src/state.rs: the state of a session, the actions on it and the conditions that
-- show a node. A hash map or set is a list; what drains one gives the keys in the list's order.
pub mod Actions
pub mod Bindings
pub mod Lookup
pub mod Counts
pub mod Patch
mod Tests
use oxiterm.Common.{
  ℕ, Bool, true, false, not, ◌&&◌, ◌||◌, Option, none, some, List, [], ◌∷◌, ◌++◌, ◌==◌,
  if◌then◌else◌,
}
use oxiterm.Common.Texts.{
  Text, codes, text_eq, split_once, split_if, trim, is_empty_text, starts_with,
}
use oxiterm.Common.TextMap.{TextMap, value_of, insert, without, has, add}
use oxiterm.Common.Int.{ℤ, pos, int_eq, saturating_inc, saturating_dec}

pub data StateValue : Type 0 where
  int : ℤ → StateValue
  str : Text → StateValue
  bool : Bool → StateValue
  list : List Text → StateValue

same_list : List Text → List Text → Bool
same_list [] [] = true
same_list (a ∷ s) (b ∷ t) = text_eq a b && same_list s t
same_list _ _ = false

-- The derived `PartialEq`.
pub same_value : StateValue → StateValue → Bool
unfolding same_list
same_value (int a) (int b) = int_eq a b
same_value (str a) (str b) = text_eq a b
same_value (bool true) (bool b) = b
same_value (bool false) (bool b) = not b
same_value (list a) (list b) = same_list a b
same_value _ _ = false

pub record StateManager : Type 0 where
  pub store : TextMap StateValue
  pub subscriptions : TextMap (List ℕ)
  pub dirty_keys : List Text

abbrev pub new : StateManager
new = record { store = []; subscriptions = []; dirty_keys = [] }

unfoldable pub get : StateManager → Text → Option StateValue
get s key = value_of s.store key

-- `self.store.get(&key) == Some(&value)`
abbrev pub holds : Option StateValue → StateValue → Bool
unfolding same_value
holds none value = false
holds (some v) value = same_value v value

unfoldable pub set : StateManager → Text → StateValue → StateManager
unfolding get holds
set s key value =
    if holds (get s key) value
    then s
    else record s { store = insert s.store key value; dirty_keys = add s.dirty_keys key }

unfoldable pub remove : StateManager → Text → StateManager
unfolding get
remove s key = elim (get s key) [
  | none ↦ s
  | some _ ↦ record s { store = without s.store key; dirty_keys = add s.dirty_keys key }
]

-- The subscribers of a key.
abbrev pub subscribers : StateManager → Text → List ℕ
subscribers s key = elim (value_of s.subscriptions key) [ none ↦ [] | some nodes ↦ nodes ]

pub subscribe : StateManager → Text → ℕ → StateManager
subscribe s key node_id = record s {
  subscriptions = insert s.subscriptions key (subscribers s key ++ node_id ∷ []);
}

pub clear_subscriptions : StateManager → StateManager
clear_subscriptions s = record s { subscriptions = [] }

unfoldable pub nodes_of : StateManager → List Text → List ℕ
nodes_of s [] = []
nodes_of s (key ∷ keys) = subscribers s key ++ nodes_of s keys

unfoldable pub get_dirty_nodes : StateManager → List ℕ × StateManager
unfolding nodes_of
get_dirty_nodes s = (nodes_of s s.dirty_keys, record s { dirty_keys = [] })

abbrev pub current_int : Option StateValue → ℤ
current_int (some (int i)) = i
current_int _ = pos 0

abbrev pub current_bool : Option StateValue → Bool
current_bool (some (bool b)) = b
current_bool _ = false

-- What `self.store.remove(key)` gives to an append.
abbrev pub current_list : Option StateValue → List Text
current_list (some (list l)) = l
current_list _ = []

abbrev pub default_of : Option StateValue → Option StateValue
default_of none = none
default_of (some (int _)) = some (int (pos 0))
default_of (some (str _)) = some (str [])
default_of (some (bool _)) = some (bool false)
default_of (some (list _)) = some (list [])

-- `self.store.remove(key)`, which marks nothing.
abbrev pub take_out : StateManager → Text → StateManager
take_out s key = record s { store = without s.store key }

abbrev pub set_if : StateManager → Text → Option StateValue → StateManager
set_if s key none = s
set_if s key (some v) = set s key v

pub append : StateManager → Text → Option Text → StateManager
unfolding get set
append s key none = s
append s key (some v) = set (take_out s key) key (list (current_list (get s key) ++ v ∷ []))

-- The match on the command.
pub run_command : StateManager → Text → Text → Option Text → StateManager
unfolding get set append
run_command s cmd key val =
    if text_eq cmd (codes "inc")
    then set s key (int (saturating_inc (current_int (get s key))))
    else if text_eq cmd (codes "dec")
    then set s key (int (saturating_dec (current_int (get s key))))
    else if text_eq cmd (codes "toggle")
    then set s key (bool (not (current_bool (get s key))))
    else if text_eq cmd (codes "set")
    then set_if s key (elim val [ none ↦ none | some v ↦ some (str v) ])
    else if text_eq cmd (codes "append")
    then append s key val
    else if text_eq cmd (codes "clear")
    then set_if s key (default_of (get s key))
    else s

-- The key of a command, and the value behind the first `=` if there is one.
abbrev pub key_and_value : Text → Text × Option Text
key_and_value rest = elim (split_once b'=' rest) [
  | none ↦ (rest, none)
  | some (key, v) ↦ (key, some v)
]

-- A key that actions may not write.
abbrev pub is_reserved : Text → Bool
is_reserved key = starts_with key (codes "_")

pub apply_action_single : StateManager → Text → StateManager
unfolding run_command
apply_action_single s action = elim (split_once b':' action) [
  | none ↦ s
  | some (cmd, rest) ↦
      let (key, val) = key_and_value rest in
      if is_reserved key then s else run_command s cmd key val
]

-- The loop over the parts of a compound action.
pub apply_parts : StateManager → List Text → StateManager
unfolding apply_action_single
apply_parts s [] = s
apply_parts s (part ∷ parts) =
    let sub_action = trim part in
    apply_parts (if is_empty_text sub_action then s else apply_action_single s sub_action) parts

pub apply_action : StateManager → Text → StateManager
unfolding apply_parts
apply_action s action = apply_parts s (split_if (λ c. (c == b';') || (c == b',')) action)
