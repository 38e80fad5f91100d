-- ===== src/Wrap/Words.antt =====
-- The words of a text that `Renderer::render_single_node` of oxiterm-renderer/src/render/renderer.rs
-- wraps.
use oxiterm.Common.{
  ℕ, ◌≡◌, refl, sym, ◌∙◌, Bool, true, false, Option, List, [], ◌∷◌, ◌++◌, leb, ltb, All, append-nil,
  append_assoc, Bool-cases, inl, inr,
}
use oxiterm.Common.Texts.{Text}
use oxiterm.Style.Computed.{WrapMode}
use oxiterm.Wrap.{
  lines, split_whitespace, text_width, with_word, wrap_words, finished, wrap_line, wrap_lines,
  lines_to_draw,
}
use oxiterm.Wrap.Splits.{
  IsWord, split_whitespace-IsWord, split_whitespace-word, split_whitespace-snoc, words_of,
  words_of-snoc,
}
use oxiterm.Wrap.Lines.{words_of-lines}

module _ (char_width : ℕ → Option ℕ) (w : ℕ) where
  -- The words of the lines that the loop knows.
  abbrev known_words : List Text → Text → Bool → List Text
  known_words result line true = words_of result ++ split_whitespace line
  known_words result line false = words_of result

  wrap_words-words :
      (words result : List Text) (line : Text) (current : ℕ) (has_words : Bool)
      → All IsWord words
      → words_of (finished (wrap_words char_width w words result line current has_words))
        ≡ known_words result line has_words ++ words
  unfolding wrap_words split_whitespace
  wrap_words-words [] result line current true h =
      words_of-snoc result line ∙ sym (append-nil (words_of result ++ split_whitespace line))
  wrap_words-words [] result line current false h = words_of-snoc result []
  wrap_words-words (word ∷ words) result line current false h =
      let rest = wrap_words-words words result word (text_width char_width word) true h.1 in
      rest ∙ rw (split_whitespace-word word h.0, append_assoc) refl
  wrap_words-words (word ∷ words) result line current true h =
      elim (Bool-cases (leb (with_word current (text_width char_width word)) w)) [
        | inl e ↦
            let rest =
              wrap_words-words words result (line ++ b' ' ∷ word)
                (with_word current (text_width char_width word)) true h.1 in
            rw (wrap_words, e, rest, split_whitespace-snoc line word h.0) (simp append_assoc refl)
        | inr e ↦
            let rest =
              wrap_words-words words (result ++ line ∷ []) word (text_width char_width word) true
                h.1 in
            rw (wrap_words, e, rest, words_of-snoc result line, split_whitespace-word word h.0)
              (simp append_assoc refl)
      ]

  wrap_line-words :
      (line : Text) (result : List Text)
      → words_of (wrap_line char_width w line result) ≡ words_of result ++ split_whitespace line
  unfolding wrap_line
  wrap_line-words [] result = words_of-snoc result []
  wrap_line-words (c ∷ s) result =
      wrap_words-words (split_whitespace (c ∷ s)) result [] 0 false
        (split_whitespace-IsWord (c ∷ s))

  wrap_lines-words :
      (ls result : List Text)
      → words_of (wrap_lines char_width w ls result) ≡ words_of result ++ words_of ls
  unfolding wrap_lines
  wrap_lines-words [] result = sym (append-nil (words_of result))
  wrap_lines-words (line ∷ rest) result =
      rw (wrap_lines-words rest (wrap_line char_width w line result), wrap_line-words line result)
        (simp append_assoc refl)

  -- The lines that are drawn hold the words of the text, all of them and in order, in both modes of
  -- wrapping and for every number of columns, however narrow.
  pub lines_to_draw-words :
      (mode : WrapMode) (text : Text)
      → words_of (lines_to_draw char_width mode w text) ≡ split_whitespace text
  unfolding lines_to_draw
  lines_to_draw-words WrapMode.no_wrap text = words_of-lines text
  lines_to_draw-words WrapMode.word text = elim (Bool-cases (ltb 0 w)) [
    | inl e ↦ rw e (wrap_lines-words (lines text) [] ∙ words_of-lines text)
    | inr e ↦ rw e (words_of-lines text)
  ]
