-- ===== src/Wrap/Agree.antt =====
-- The lines that oxiterm-renderer/src/layout/engine.rs counts against those that
-- render/renderer.rs draws.
use oxiterm.Common.{
  ℕ, ◌+◌, ◌<◌, ◌≡◌, refl, sym, Bool, true, false, Option, List, [], ◌∷◌, ◌++◌, length, leb, lt→ltb,
  length-append, Bool-cases, inl, inr,
}
use oxiterm.Common.Texts.{Text}
use oxiterm.Style.Computed.{WrapMode}
use oxiterm.Wrap.{
  lines, split_whitespace, text_width, with_word, count_words, counted_lines, count_line,
  count_lines, word_wrapped_line_count, wrap_words, finished, wrap_line, wrap_lines, lines_to_draw,
}

length-snoc {ℓ} : {A : Type ℓ} (xs : List A) (x : A) → length (xs ++ x ∷ []) ≡ length xs + 1
length-snoc xs x = length-append xs (x ∷ [])

-- The lines of which the loop knows: those that are finished, and the current one.
abbrev known : List Text → Bool → ℕ
known result true = length result + 1
known result false = length result

module _ (char_width : ℕ → Option ℕ) (w : ℕ) where
  abbrev taken : List Text → List Text → Text → ℕ → Bool → ℕ
  taken words result line current has_words =
      length (finished (wrap_words char_width w words result line current has_words))

  wrap_words-counts :
      (words result : List Text) (line : Text) (current : ℕ) (has_words : Bool)
      → taken words result line current has_words
        ≡ counted_lines (count_words char_width w words current has_words (known result has_words))
  unfolding wrap_words count_words
  wrap_words-counts [] result line current true = length-snoc result line
  wrap_words-counts [] result line current false = length-snoc result []
  wrap_words-counts (word ∷ words) result line current false =
      wrap_words-counts words result word (text_width char_width word) true
  wrap_words-counts (word ∷ words) result line current true =
      elim (Bool-cases (leb (with_word current (text_width char_width word)) w)) [
        | inl e ↦
            rw (wrap_words, count_words, e)
              (wrap_words-counts words result (line ++ b' ' ∷ word)
                (with_word current (text_width char_width word)) true)
        | inr e ↦
            let rest =
              wrap_words-counts words (result ++ line ∷ []) word (text_width char_width word)
                true in
            rw (wrap_words, count_words, e, sym (length-snoc result line)) rest
      ]

  wrap_line-counts :
      (line : Text) (result : List Text)
      → length (wrap_line char_width w line result) ≡ count_line char_width w line (length result)
  unfolding wrap_line count_line
  wrap_line-counts [] result = length-snoc result []
  wrap_line-counts (c ∷ s) result = wrap_words-counts (split_whitespace (c ∷ s)) result [] 0 false

  wrap_lines-counts :
      (ls result : List Text)
      → length (wrap_lines char_width w ls result) ≡ count_lines char_width w ls (length result)
  unfolding wrap_lines count_lines
  wrap_lines-counts [] result = refl
  wrap_lines-counts (line ∷ rest) result =
      rw (wrap_lines-counts rest (wrap_line char_width w line result), wrap_line-counts line result)
        refl

  -- Text wrapped at words is drawn as the lines that the layout counts for it, for every table of
  -- character widths and every text, provided that there is at least one column.
  pub lines_to_draw-counts :
      (text : Text)
      → 0 < w
      → length (lines_to_draw char_width WrapMode.word w text)
        ≡ word_wrapped_line_count char_width text w
  unfolding lines_to_draw word_wrapped_line_count
  lines_to_draw-counts text h = rw (lt→ltb 0 w h) (wrap_lines-counts (lines text) [])
