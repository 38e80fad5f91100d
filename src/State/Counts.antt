-- ===== src/State/Counts.antt =====
-- What a compound action of `inc` and `dec` commands makes of the integer at a key.
use oxiterm.Common.{
  ℕ, zero, suc, ◌+◌, ◌-◌, ◌^◌, ◌≡◌, refl, sym, ◌∙◌, ap, subst, min, Bool, true, false, ◌||◌, ◌==◌,
  Option, none, some, List, [], ◌∷◌, ◌++◌, All, All-append, arith, if◌then◌else◌, Bool-cases, inl,
  inr, ltb, ltb→lt, ltb→ge,
}
use oxiterm.Common.Texts.{
  Text, codes, text_eq, text_eq_self, split_once, split_if, trim, trim_start, is_empty_text,
  is_whitespace,
}
use oxiterm.Common.Splits.{Free, split_if-middle, split_if-whole}
use oxiterm.Common.TextMap.{value_of, value_of-insert}
use oxiterm.Common.Int.{ℤ, pos, negsuc, int_eq, IsI64, saturating_inc, saturating_dec}
use oxiterm.State.{
  StateValue, int, str, bool, list, StateManager, get, set, holds, same_value, run_command,
  apply_action_single, apply_parts, apply_action, is_reserved, current_int,
}
use mathlib.Core.List.{reverse, reverse-cons, reverse-reverse}

-- An `i64` counted from the least one.
abbrev pub from_least : ℤ → ℕ
from_least (pos n) = 2 ^ 63 + n
from_least (negsuc n) = 2 ^ 63 - 1 - n

abbrev IsCount : ℤ → ℕ → Type 0
IsCount j n = IsI64 j × (from_least j ≡ n)

inc-IsCount : (i : ℤ) → IsI64 i → IsCount (saturating_inc i) (min (from_least i + 1) (2 ^ 64 - 1))
unfolding saturating_inc
inc-IsCount (pos n) h = elim (Bool-cases (ltb n (2 ^ 63 - 1))) [
  | inl e ↦ let lt = ltb→lt n (2 ^ 63 - 1) e in rw e (omega (arith, lt), omega (arith, lt))
  | inr e ↦ let ge = ltb→ge n (2 ^ 63 - 1) e in rw e (omega arith, omega (arith, ge, h))
]
inc-IsCount (negsuc zero) h = (omega arith, omega arith)
inc-IsCount (negsuc (suc n)) h = (omega (arith, h), omega (arith, h))

dec-IsCount : (i : ℤ) → IsI64 i → IsCount (saturating_dec i) (from_least i - 1)
unfolding saturating_dec
dec-IsCount (pos zero) h = (omega arith, omega arith)
dec-IsCount (pos (suc n)) h = (omega (arith, h), omega (arith, h))
dec-IsCount (negsuc n) h = elim (Bool-cases (ltb n (2 ^ 63 - 1))) [
  | inl e ↦ let lt = ltb→lt n (2 ^ 63 - 1) e in rw e (omega (arith, lt), omega (arith, lt))
  | inr e ↦ let ge = ltb→ge n (2 ^ 63 - 1) e in rw e (omega arith, omega (arith, ge, h))
]

int_eq-eq : (a b : ℤ) → int_eq a b ≡ true → a ≡ b
int_eq-eq (pos a) (pos b) h = ground arith
int_eq-eq (pos a) (negsuc b) h = cc
int_eq-eq (negsuc a) (pos b) h = cc
int_eq-eq (negsuc a) (negsuc b) h = ground arith

holds-int : (o : Option StateValue) (i : ℤ) → holds o (int i) ≡ true → o ≡ some (int i)
unfolding holds same_value
holds-int none i h = cc
holds-int (some (int j)) i h = ap (λ k. some (int k)) (int_eq-eq j i h)
holds-int (some (bool true)) i h = cc
holds-int (some (bool false)) i h = cc
holds-int (some (list l)) i h = cc
holds-int (some (str s)) i h = cc

get-set_int : (s : StateManager) (k : Text) (i : ℤ) → get (set s k (int i)) k ≡ some (int i)
unfolding get set
get-set_int s k i = elim (Bool-cases (holds (get s k) (int i))) [
  | inl e ↦ rw e (holds-int (get s k) i e)
  | inr e ↦ rw e (
      value_of-insert s.store k k (int i)
      ∙ ap (λ b. if b then some (int i) else value_of s.store k) (text_eq_self k))
]

abbrev is_separator : ℕ → Bool
is_separator c = (c == b';') || (c == b',')

-- A key that stands in an action as it is: it has no white space and no `;`, `,` or `=`.
abbrev pub IsKey : Text → Type 0
IsKey = All (λ c. (is_whitespace c ≡ false) × (is_separator c ≡ false) × ((c == b'=') ≡ false))

pub data Step : Type 0 where
  up down : Step

-- The command of a step.
abbrev pub command : Text → Step → Text
command key up = codes "inc:" ++ key
command key down = codes "dec:" ++ key

-- The commands of some steps with semicolons between them.
abbrev pub commands : Text → Step → List Step → Text
commands key step [] = command key step
commands key step (next ∷ steps) = command key step ++ b';' ∷ commands key next steps

-- Where a counter stands behind a step that neither passes the least `i64` nor the greatest.
abbrev pub stepped : Step → ℕ → ℕ
stepped up n = min (n + 1) (2 ^ 64 - 1)
stepped down n = n - 1

abbrev pub counted_to : List Step → ℕ → ℕ
counted_to [] n = n
counted_to (step ∷ steps) n = counted_to steps (stepped step n)

trim_start-Free : (s : Text) → Free is_whitespace s → trim_start s ≡ s
unfolding trim_start
trim_start-Free [] h = refl
trim_start-Free (c ∷ s) h = rw h.0 refl

reverse-Free : (s : Text) → Free is_whitespace s → Free is_whitespace (reverse s)
reverse-Free [] h = tt
reverse-Free (c ∷ s) h =
    rw (reverse-cons c s) (
      All-append (λ d. is_whitespace d ≡ false) (reverse s) (c ∷ []) (reverse-Free s h.1) (h.0, tt))

trim-Free : (s : Text) → Free is_whitespace s → trim s ≡ s
unfolding trim
trim-Free s h =
    rw (trim_start-Free s h, trim_start-Free (reverse s) (reverse-Free s h)) (reverse-reverse s)

IsKey-Solid : (key : Text) → IsKey key → Free is_whitespace key
IsKey-Solid [] h = tt
IsKey-Solid (c ∷ key) h = (h.0.0, IsKey-Solid key h.1)

IsKey-Whole : (key : Text) → IsKey key → Free is_separator key
IsKey-Whole [] h = tt
IsKey-Whole (c ∷ key) h = (h.0.1, IsKey-Whole key h.1)

split_once-none : (key : Text) → IsKey key → split_once b'=' key ≡ none
unfolding split_once
split_once-none [] h = refl
split_once-none (c ∷ key) h = rw (h.0.2, split_once-none key h.1) refl

command-trim : (key : Text) (step : Step) → IsKey key → trim (command key step) ≡ command key step
unfolding is_whitespace
command-trim key up h =
    trim-Free (codes "inc:" ++ key) (refl, (refl, (refl, (refl, IsKey-Solid key h))))
command-trim key down h =
    trim-Free (codes "dec:" ++ key) (refl, (refl, (refl, (refl, IsKey-Solid key h))))

command-Whole : (key : Text) (step : Step) → IsKey key → Free is_separator (command key step)
command-Whole key up h = (refl, (refl, (refl, (refl, IsKey-Whole key h))))
command-Whole key down h = (refl, (refl, (refl, (refl, IsKey-Whole key h))))

texts_of : Text → List Step → List Text
texts_of key [] = []
texts_of key (step ∷ steps) = command key step ∷ texts_of key steps

commands-split :
    (key : Text) (step : Step) (steps : List Step)
    → IsKey key
    → split_if is_separator (commands key step steps) ≡ texts_of key (step ∷ steps)
unfolding texts_of
commands-split key step [] h =
    split_if-whole is_separator (command key step) (command-Whole key step h)
commands-split key step (next ∷ steps) h =
    rw
      (
        split_if-middle is_separator (command key step) b';' (commands key next steps) refl,
        split_if-whole is_separator (command key step) (command-Whole key step h),
      )
      (ap (λ l. command key step ∷ l) (commands-split key next steps h))

-- The key holds an integer that stands at a number.
abbrev pub CountsTo : StateManager → Text → ℕ → Type 0
CountsTo s key n = (i : ℤ) × (get s key ≡ some (int i)) × IsI64 i × (from_least i ≡ n)

-- The command behind the search for a value in what follows its colon.
abbrev run_kept : StateManager → Text → Text → Option (Text × Text) → StateManager
run_kept s rest cmd o =
    let kv : Text × Option Text = elim o [ none ↦ (rest, none) | some (key, v) ↦ (key, some v) ] in
    if is_reserved kv.0 then s else run_command s cmd kv.0 kv.1

-- What the command of a step writes.
abbrev written : Step → ℤ → ℤ
written up i = saturating_inc i
written down i = saturating_dec i

command-written :
    (s : StateManager) (key : Text) (step : Step)
    → IsKey key
    → is_reserved key ≡ false
    → apply_action_single s (command key step)
      ≡ set s key (int (written step (current_int (get s key))))
unfolding apply_action_single run_command split_once text_eq
command-written s key up h free =
    ap (λ o. run_kept s key (codes "inc") o) (split_once-none key h)
    ∙ ap (λ b. if b then s else run_command s (codes "inc") key none) free
command-written s key down h free =
    ap (λ o. run_kept s key (codes "dec") o) (split_once-none key h)
    ∙ ap (λ b. if b then s else run_command s (codes "dec") key none) free

single-CountsTo :
    (s : StateManager) (key : Text) (step : Step)
    → IsKey key
    → is_reserved key ≡ false
    → IsI64 (current_int (get s key))
    → CountsTo
        (apply_action_single s (command key step))
        key
        (stepped step (from_least (current_int (get s key))))
single-CountsTo s key up h free small =
    let now = current_int (get s key) in
    let (range, count) = inc-IsCount now small in
    subst (λ t. CountsTo t key (stepped up (from_least now)))
      (sym (command-written s key up h free))
      (saturating_inc now, get-set_int s key (saturating_inc now), range, count)
single-CountsTo s key down h free small =
    let now = current_int (get s key) in
    let (range, count) = dec-IsCount now small in
    subst (λ t. CountsTo t key (stepped down (from_least now)))
      (sym (command-written s key down h free))
      (saturating_dec now, get-set_int s key (saturating_dec now), range, count)

not_empty : (key : Text) (step : Step) → is_empty_text (command key step) ≡ false
not_empty key up = refl
not_empty key down = refl

part-ran :
    (s : StateManager) (key : Text) (step : Step) (parts : List Text)
    → IsKey key
    → apply_parts s (command key step ∷ parts)
      ≡ apply_parts (apply_action_single s (command key step)) parts
unfolding apply_parts
part-ran s key step parts h =
    ap (λ t. apply_parts (if is_empty_text t then s else apply_action_single s t) parts)
      (command-trim key step h)
    ∙ ap (λ b. apply_parts (if b then s else apply_action_single s (command key step)) parts)
        (not_empty key step)

parts-CountsTo :
    (s : StateManager) (key : Text) (steps : List Step) (n : ℕ)
    → IsKey key
    → is_reserved key ≡ false
    → CountsTo s key n
    → CountsTo (apply_parts s (texts_of key steps)) key (counted_to steps n)
unfolding texts_of apply_parts
parts-CountsTo s key [] n h free c = c
parts-CountsTo s key (step ∷ steps) n h free (i, at, small, same) =
    let now : current_int (get s key) ≡ i = ap current_int at in
    let one = single-CountsTo s key step h free (subst IsI64 (sym now) small) in
    subst (λ t. CountsTo t key (counted_to steps (stepped step n)))
      (sym (part-ran s key step (texts_of key steps) h))
      (parts-CountsTo (apply_action_single s (command key step)) key steps (stepped step n) h free (
        subst (λ m. CountsTo (apply_action_single s (command key step)) key (stepped step m))
          (ap from_least now ∙ same) one))

-- A compound action of `inc` and `dec` commands on one key, which is not reserved and stands in the
-- text as it is, leaves an integer there: each `inc` adds one and each `dec` takes one, in order,
-- but for those that would pass the greatest or the least `i64`. They begin with the integer at the
-- key, or with 0 where there is none. Integers are counted from the least one.
pub apply_action-CountsTo :
    (s : StateManager) (key : Text) (step : Step) (steps : List Step)
    → IsKey key
    → is_reserved key ≡ false
    → IsI64 (current_int (get s key))
    → CountsTo
        (apply_action s (commands key step steps))
        key
        (counted_to (step ∷ steps) (from_least (current_int (get s key))))
unfolding apply_action texts_of
apply_action-CountsTo s key step steps h free small =
    subst
      (λ t. CountsTo t key (counted_to steps (stepped step (from_least (current_int (get s key))))))
      (sym (
        ap (apply_parts s) (commands-split key step steps h)
        ∙ part-ran s key step (texts_of key steps) h))
      (parts-CountsTo (apply_action_single s (command key step)) key steps
        (stepped step (from_least (current_int (get s key)))) h free
        (single-CountsTo s key step h free small))
