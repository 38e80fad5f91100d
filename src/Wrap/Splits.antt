-- ===== src/Wrap/Splits.antt =====
-- `str::split_whitespace`, which oxiterm-renderer/src/layout/engine.rs and render/renderer.rs call: its
-- words, and how it goes through a text that is put together.
use oxiterm.Common.{◌≡◌, refl, ap, false, List, [], ◌∷◌, ◌++◌, All, append-nil, append_assoc}
use oxiterm.Common.Texts.{Text, is_empty_text, is_whitespace, split_if}
use oxiterm.Common.Splits.{Free, split_if-middle, split_if-Free, split_if-whole}
use oxiterm.Wrap.{non_empty, split_whitespace}

-- What `split_whitespace` gives: a text that is not empty and has no white space.
abbrev pub IsWord : Text → Type 0
IsWord s = (is_empty_text s ≡ false) × Free is_whitespace s

pub non_empty-append : (xs ys : List Text) → non_empty (xs ++ ys) ≡ non_empty xs ++ non_empty ys
unfolding non_empty
non_empty-append [] ys = refl
non_empty-append ([] ∷ xs) ys = non_empty-append xs ys
non_empty-append ((c ∷ s) ∷ xs) ys = ap (λ l. (c ∷ s) ∷ l) (non_empty-append xs ys)

non_empty-IsWord : (xs : List Text) → All (Free is_whitespace) xs → All IsWord (non_empty xs)
unfolding non_empty
non_empty-IsWord [] h = h
non_empty-IsWord ([] ∷ xs) h = non_empty-IsWord xs h.1
non_empty-IsWord ((c ∷ s) ∷ xs) h = ((refl, h.0), non_empty-IsWord xs h.1)

pub split_whitespace-IsWord : (s : Text) → All IsWord (split_whitespace s)
unfolding split_whitespace
split_whitespace-IsWord s =
    non_empty-IsWord (split_if is_whitespace s) (split_if-Free is_whitespace s)

pub split_whitespace-word : (s : Text) → IsWord s → split_whitespace s ≡ s ∷ []
unfolding split_whitespace non_empty
split_whitespace-word s h = rw (split_if-whole is_whitespace s h.1, h.0) refl

pub split_whitespace-snoc :
    (line word : Text)
    → IsWord word
    → split_whitespace (line ++ b' ' ∷ word) ≡ split_whitespace line ++ word ∷ []
unfolding split_whitespace is_whitespace
split_whitespace-snoc line word h =
    rw
      (
        split_if-middle is_whitespace line b' ' word refl,
        non_empty-append (split_if is_whitespace line) (split_if is_whitespace word),
      )
      (ap (λ l. split_whitespace line ++ l) (split_whitespace-word word h))

-- The words of some lines, in order.
abbrev pub words_of : List Text → List Text
words_of [] = []
words_of (s ∷ ss) = split_whitespace s ++ words_of ss

pub words_of-snoc :
    (ss : List Text) (s : Text) → words_of (ss ++ s ∷ []) ≡ words_of ss ++ split_whitespace s
words_of-snoc [] s = append-nil (split_whitespace s)
words_of-snoc (t ∷ ss) s = rw (words_of-snoc ss s, append_assoc) refl
