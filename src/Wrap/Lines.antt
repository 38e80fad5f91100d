-- ===== src/Wrap/Lines.antt =====
-- The lines of a text against its words: `str::lines` and `str::split_whitespace`, which
-- oxiterm-renderer/src/layout/engine.rs uses side by side.
use oxiterm.Common.{
  ℕ, ◌≡◌, refl, sym, ◌∙◌, ap, Bool, true, ◌==◌, ==_iff, List, [], ◌∷◌, ◌++◌, append-nil, Bool-cases,
  ◌⊎◌, inl, inr,
}
use oxiterm.Common.Texts.{Text, is_whitespace, split_if, cons_first}
use oxiterm.Wrap.{lines, lines_of, strip_cr, split_whitespace}
use oxiterm.Common.Splits.{split_if-first, split_if-middle}
use oxiterm.Wrap.Splits.{non_empty-append, words_of}

abbrev is_feed : ℕ → Bool
is_feed c = c == 0xa

-- The parts of a text with the line feeds between them.
joined : List Text → Text
joined [] = []
joined (s ∷ []) = s
joined (s ∷ t ∷ ss) = s ++ 0xa ∷ joined (t ∷ ss)

joined-cons : (c : ℕ) (s : Text) (ss : List Text) → joined ((c ∷ s) ∷ ss) ≡ c ∷ joined (s ∷ ss)
unfolding joined
joined-cons c s [] = refl
joined-cons c s (t ∷ ss) = refl

joined-split : (s : Text) → joined (split_if is_feed s) ≡ s
unfolding joined split_if cons_first
joined-split [] = refl
joined-split (c ∷ s) =
    let (p, (ps, f)) = split_if-first is_feed s in
    let whole = simp f at (joined-split s) in
    elim (Bool-cases (is_feed c)) [
      | inl e ↦ rw (e, f, whole, (==_iff c 0xa).0 e) refl
      | inr e ↦ rw (e, f, joined-cons c p ps, whole) refl
    ]

split_whitespace-middle :
    (s : Text) (c : ℕ) (rest : Text)
    → is_whitespace c ≡ true
    → split_whitespace (s ++ c ∷ rest) ≡ split_whitespace s ++ split_whitespace rest
unfolding split_whitespace
split_whitespace-middle s c rest h =
    rw (split_if-middle is_whitespace s c rest h)
      (non_empty-append (split_if is_whitespace s) (split_if is_whitespace rest))

words_of-joined : (ss : List Text) → words_of ss ≡ split_whitespace (joined ss)
unfolding joined split_whitespace is_whitespace
words_of-joined [] = refl
words_of-joined (s ∷ []) = append-nil (split_whitespace s)
words_of-joined (s ∷ t ∷ ss) =
    rw (split_whitespace-middle s 0xa (joined (t ∷ ss)) refl)
      (ap (λ l. split_whitespace s ++ l) (words_of-joined (t ∷ ss)))

strip_cr-cases : (s : Text) → (strip_cr s ≡ s) ⊎ (s ≡ strip_cr s ++ 0xd ∷ [])
unfolding strip_cr
strip_cr-cases [] = inl refl
strip_cr-cases (c ∷ []) = elim (Bool-cases (c == 0xd)) [
  | inl e ↦ inr (rw (e, (==_iff c 0xd).0 e) refl)
  | inr e ↦ inl (rw e refl)
]
strip_cr-cases (c ∷ d ∷ s) = elim (strip_cr-cases (d ∷ s)) [
  | inl e ↦ inl (ap (λ t. c ∷ t) e)
  | inr e ↦ inr (ap (λ t. c ∷ t) e)
]

split_whitespace-strip_cr : (s : Text) → split_whitespace (strip_cr s) ≡ split_whitespace s
unfolding split_whitespace is_whitespace
split_whitespace-strip_cr s = elim (strip_cr-cases s) [
  | inl e ↦ ap split_whitespace e
  | inr e ↦ sym (
      ap split_whitespace e
      ∙ split_whitespace-middle (strip_cr s) 0xd [] refl
      ∙ append-nil (split_whitespace (strip_cr s)))
]

words_of-lines_of : (ss : List Text) → words_of (lines_of ss) ≡ words_of ss
unfolding lines_of split_whitespace
words_of-lines_of [] = refl
words_of-lines_of ([] ∷ []) = refl
words_of-lines_of ((c ∷ s) ∷ []) = refl
words_of-lines_of (line ∷ next ∷ rest) =
    rw (split_whitespace-strip_cr line, words_of-lines_of (next ∷ rest)) refl

pub words_of-lines : (text : Text) → words_of (lines text) ≡ split_whitespace text
unfolding lines
words_of-lines text =
    words_of-lines_of (split_if is_feed text)
    ∙ words_of-joined (split_if is_feed text)
    ∙ ap split_whitespace (joined-split text)
