-- ===== src/State/Bindings.antt =====
-- `evaluate_bind_show` of state.rs: whether a node is shown.
use oxiterm.Common.{
  ℕ, ◌+◌, ◌≡◌, refl, Bool, true, false, not, ◌&&◌, ◌||◌, Option, none, some, List, [], ◌∷◌, arith,
  ◌==◌, if◌then◌else◌, Bool-cases, inl, inr, ◌++◌,
}
use oxiterm.Common.Texts.{Text, codes, text_eq, text_eq_self, split_once, is_empty_text}
use oxiterm.Common.TextMap.{has}
use oxiterm.Common.Int.{ℤ, pos, negsuc, int_eq}
use oxiterm.Input.Params.Decimal.{decimal}
use oxiterm.State.{StateValue, int, str, bool, list, StateManager, get}

abbrev is_empty_list : List Text → Bool
is_empty_list [] = true
is_empty_list (_ ∷ _) = false

-- `i.to_string()` and `b.to_string()`
pub int_text : ℤ → Text
unfolding decimal
int_text (pos n) = decimal n
int_text (negsuc n) = b'-' ∷ decimal (n + 1)

pub bool_text : Bool → Text
bool_text true = codes "true"
bool_text false = codes "false"

-- The arms of the match on the text behind the `=`.
pub is_false : Option StateValue → Bool
is_false (some (bool b)) = not b
is_false (some (int i)) = int_eq i (pos 0)
is_false (some (str s)) = text_eq s (codes "false") || is_empty_text s
is_false (some (list l)) = is_empty_list l
is_false none = true

pub is_true : Option StateValue → Bool
is_true (some (bool b)) = b
is_true (some (int i)) = not (int_eq i (pos 0))
is_true (some (str s)) = text_eq s (codes "true")
is_true (some (list l)) = not (is_empty_list l)
is_true none = false

pub is_value : Option StateValue → Text → Bool
unfolding int_text bool_text
is_value (some (str s)) t = text_eq s t
is_value (some (int i)) t = text_eq (int_text i) t
is_value (some (bool b)) t = text_eq (bool_text b) t
is_value (some (list l)) t = has l t
is_value none t = false

-- A condition with no `=`.
pub is_set : Option StateValue → Bool
is_set (some (bool b)) = b
is_set (some (int i)) = not (int_eq i (pos 0))
is_set (some (str s)) = not (is_empty_text s) && not (text_eq s (codes "false"))
is_set (some (list l)) = not (is_empty_list l)
is_set none = false

unfoldable pub evaluate_bind_show : StateManager → Text → Bool
unfolding is_false is_true is_value is_set
evaluate_bind_show s condition = elim (split_once b'=' condition) [
  | none ↦ is_set (get s condition)
  | some (key, val) ↦
      if text_eq val (codes "false")
      then is_false (get s key)
      else if text_eq val (codes "true")
      then is_true (get s key)
      else is_value (get s key) val
]

-- A text that does not hold the character.
abbrev pub Lacks : ℕ → Text → Type 0
Lacks c s = split_once c s ≡ none

Lacks-not : (sep c : ℕ) (key : Text) → (c == sep) ≡ true → Lacks sep (c ∷ key) → ⊥
unfolding split_once
Lacks-not sep c key e h = ground arith

Lacks-rest : (sep c : ℕ) (key : Text) → (c == sep) ≡ false → Lacks sep (c ∷ key) → Lacks sep key
unfolding split_once
Lacks-rest sep c key e h = ground arith

split_once-append :
    (sep : ℕ) (key val : Text) → Lacks sep key → split_once sep (key ++ sep ∷ val) ≡ some (key, val)
unfolding split_once
split_once-append sep [] val h = ground arith
split_once-append sep (c ∷ key) val h = elim (Bool-cases (c == sep)) [
  | inl e ↦ absurd (Lacks-not sep c key e h)
  | inr e ↦ rw (e, split_once-append sep key val (Lacks-rest sep c key e h)) refl
]

is_false-is_set : (o : Option StateValue) → is_false o ≡ not (is_set o)
unfolding is_false is_set
is_false-is_set (some (bool b)) = refl
is_false-is_set (some (int i)) = ground arith
is_false-is_set (some (str s)) = ground arith
is_false-is_set (some (list l)) = ground arith
is_false-is_set none = refl

-- For a key with no `=`, the condition `key=false` shows exactly the nodes that `key` hides.
pub evaluate_bind_show-false :
    (s : StateManager) (key : Text)
    → Lacks b'=' key
    → evaluate_bind_show s (key ++ b'=' ∷ codes "false") ≡ not (evaluate_bind_show s key)
unfolding evaluate_bind_show
evaluate_bind_show-false s key h =
    rw
      (
        evaluate_bind_show,
        split_once-append b'=' key (codes "false") h,
        h,
        text_eq_self (codes "false"),
      )
      (is_false-is_set (get s key))
