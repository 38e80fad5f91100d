-- ===== src/Common/Texts.antt =====
-- Texts as lists of code points, with the methods of `str` that the program calls, after their
-- documentation.
use Prim.Native.Nat.{ℕ, zero, suc, ◌+◌}
use Prim.Native.Char.{code}
use Prim.Native.String.{String}
use mathlib.Core.Path.{◌≡◌, refl}
use mathlib.Core.Bool.{Bool, true, false, ◌&&◌, ◌||◌}
use mathlib.Core.Logic.{◌↔◌}
use mathlib.Core.Option.{Option, none, some}
use mathlib.Core.List.{List, [], ◌∷◌, reverse}
use native.Mathlib.Omega.{arith}
use oxiterm.Common.Checks.{ltb, leb, ◌==◌, if◌then◌else◌}

abbrev pub Text : Type 0
Text = List ℕ

-- The code points of a literal.
abbrev pub codes : String → Text
codes String.[] = []
codes (String.◌∷◌ c s) = code c ∷ codes s

unfoldable pub text_eq : Text → Text → Bool
text_eq [] [] = true
text_eq (a ∷ s) (b ∷ t) = (a == b) && text_eq s t
text_eq _ _ = false

abbrev pub is_empty_text : Text → Bool
is_empty_text [] = true
is_empty_text (c ∷ s) = false

-- `starts_with` and `contains`
unfoldable pub starts_with : Text → Text → Bool
starts_with s [] = true
starts_with [] (b ∷ p) = false
starts_with (a ∷ s) (b ∷ p) = (a == b) && starts_with s p

unfoldable pub contains_text : Text → Text → Bool
unfolding starts_with
contains_text [] p = starts_with [] p
contains_text (a ∷ s) p = starts_with (a ∷ s) p || contains_text s p

-- `String::len`: the bytes of the UTF-8 form.
unfoldable pub byte_len : Text → ℕ
byte_len [] = 0
byte_len (c ∷ s) =
    (if ltb c 0x80 then 1 else if ltb c 0x800 then 2 else if ltb c 0x10000 then 3 else 4)
    + byte_len s

drop_text : ℕ → Text → Text
drop_text zero s = s
drop_text (suc n) [] = []
drop_text (suc n) (c ∷ s) = drop_text n s

unfoldable pub text_len : Text → ℕ
text_len [] = 0
text_len (c ∷ s) = suc (text_len s)

-- What stands before and behind the first occurrence of a text, if it occurs.
unfoldable pub split_text : Text → Text → Option (Text × Text)
unfolding starts_with drop_text text_len
split_text p [] = if is_empty_text p then some ([], []) else none
split_text p (c ∷ s) =
    let later = split_text p s in
    if starts_with (c ∷ s) p
    then some ([], drop_text (text_len p) (c ∷ s))
    else elim later [ none ↦ none | some (before, behind) ↦ some (c ∷ before, behind) ]

-- What stands before and behind the first occurrence of a character, if it occurs.
unfoldable pub split_once : ℕ → Text → Option (Text × Text)
split_once sep [] = none
split_once sep (c ∷ s) =
    let later = split_once sep s in
    if c == sep
    then some ([], s)
    else elim later [ none ↦ none | some (before, behind) ↦ some (c ∷ before, behind) ]

-- What stands before the last occurrence of a character, if it occurs.
unfoldable pub before_last : ℕ → Text → Option Text
unfolding split_once
before_last sep s = elim (split_once sep (reverse s)) [
  | none ↦ none
  | some (_, before) ↦ some (reverse before)
]

drop_char : ℕ → Text → Text
drop_char sep [] = []
drop_char sep (c ∷ s) = let rest = drop_char sep s in if c == sep then rest else c ∷ s

-- `trim_matches` with a character.
unfoldable pub trim_matches : ℕ → Text → Text
unfolding drop_char
trim_matches sep s = reverse (drop_char sep (reverse (drop_char sep s)))

unfoldable pub cons_first : ℕ → List Text → List Text
cons_first c [] = (c ∷ []) ∷ []
cons_first c (part ∷ parts) = (c ∷ part) ∷ parts

-- `split` at the characters of a test.
unfoldable pub split_if : (ℕ → Bool) → Text → List Text
unfolding cons_first
split_if test [] = [] ∷ []
split_if test (c ∷ s) =
    let parts = split_if test s in if test c then [] ∷ parts else cons_first c parts

-- The characters with the property `White_Space`.
unfoldable pub is_whitespace : ℕ → Bool
is_whitespace c =
    (leb 9 c && leb c 13)
    || ((c == 0x20)
        || ((c == 0x85)
            || ((c == 0xa0)
                || ((c == 0x1680)
                    || ((leb 0x2000 c && leb c 0x200a)
                        || ((c == 0x2028)
                            || ((c == 0x2029)
                                || ((c == 0x202f) || ((c == 0x205f) || (c == 0x3000))))))))))

unfoldable pub trim_start : Text → Text
unfolding is_whitespace
trim_start [] = []
trim_start (c ∷ s) = let rest = trim_start s in if is_whitespace c then rest else c ∷ s

-- `trim`
unfoldable pub trim : Text → Text
unfolding trim_start
trim s = reverse (trim_start (reverse (trim_start s)))

-- The first word of a text, none if it has none: `split_whitespace().next()`.
word : Text → Text
unfolding is_whitespace
word [] = []
word (c ∷ s) = let rest = word s in if is_whitespace c then [] else c ∷ rest

unfoldable pub first_word : Text → Option Text
unfolding word trim_start
first_word s = let w = word (trim_start s) in if is_empty_text w then none else some w

pub text_eq_self : (s : Text) → text_eq s s ≡ true
unfolding text_eq
text_eq_self [] = refl
text_eq_self (c ∷ s) = ground (arith, text_eq_self s)

pub text_eq→eq : (s t : Text) → text_eq s t ≡ true → s ≡ t
unfolding text_eq
text_eq→eq [] [] h = refl
text_eq→eq [] (b ∷ t) h = cc
text_eq→eq (a ∷ s) [] h = cc
text_eq→eq (a ∷ s) (b ∷ t) h = ground (arith, text_eq→eq s t)

pub text_eq_iff : (s t : Text) → (text_eq s t ≡ true) ↔ (s ≡ t)
text_eq_iff s t = (text_eq→eq s t, λ e. rw e (text_eq_self t))
