-- ===== src/Wrap/Rows.antt =====
-- The rows that the characters of a wrapped text take on the screen: the loop over `lines_to_draw`
-- in oxiterm-renderer/src/render/renderer.rs.
use oxiterm.Common.{
  ℕ, ◌+◌, ◌%◌, ◌^◌, ◌<◌, ◌≤◌, ◌≡◌, refl, sym, Bool, true, false, Option, List, [], ◌∷◌, ◌++◌, leb,
  ltb, lt→ltb, ltb→lt, leb→le, length, All, All-append, All-parts, ltb→ge, subst, arith, Bool-cases,
  inl, inr,
}
use oxiterm.Common.Texts.{Text}
use oxiterm.Style.Computed.{WrapMode}
use oxiterm.Unicode.{computed_width}
use oxiterm.Wrap.{
  lines, split_whitespace, widest, longest_word_width, text_width, with_word, wrap_words, finished,
  wrap_line, wrap_lines, lines_to_draw, placed, draw_chars, draw_lines, word_wrapped_line_count,
}
use oxiterm.Wrap.Splits.{words_of}
use oxiterm.Wrap.Lines.{words_of-lines}
use oxiterm.Wrap.Agree.{lines_to_draw-counts}

placed-fits : (w char_w cx cy : ℕ) → w < 2 ^ 15 → cx + char_w ≤ w → placed w char_w cx cy ≡ (cx, cy)
placed-fits w char_w cx cy small le = ground arith

module _ (char_width : ℕ → Option ℕ) where
  -- The columns of a text, without a bound.
  unfoldable pub columns : Text → ℕ
  columns [] = 0
  columns (c ∷ s) = computed_width char_width c + columns s

  columns-append : (s t : Text) → columns (s ++ t) ≡ columns s + columns t
  unfolding columns
  columns-append [] t = omega arith
  columns-append (c ∷ s) t = omega (arith, columns-append s t)

  text_width-columns : (s : Text) → columns s < 2 ^ 16 → text_width char_width s ≡ columns s
  unfolding columns text_width
  text_width-columns [] h = refl
  text_width-columns (c ∷ s) h = omega (arith, h, text_width-columns s (omega (arith, h)))

module _ (char_width : ℕ → Option ℕ) (w : ℕ) where
  abbrev pub Fits : Text → Type 0
  Fits s = columns char_width s ≤ w

  draw_chars-row :
      (h : ℕ) (s : Text) (cx cy : ℕ)
      → w < 2 ^ 15
      → cx + columns char_width s ≤ w
      → (draw_chars char_width w h s cx cy).1 ≡ cy
  unfolding draw_chars columns
  draw_chars-row h [] cx cy small le = refl
  draw_chars-row h (ch ∷ s) cx cy small le =
      let char_w = computed_width char_width ch in
      elim (Bool-cases (ltb 0 char_w)) [
        | inr e ↦ rw (draw_chars, e) (draw_chars-row h s cx cy small (omega (arith, le)))
        | inl e ↦
            let next : (cx + char_w) % 2 ^ 16 ≡ cx + char_w = omega (arith, le, small) in
            rw (draw_chars, e, placed-fits w char_w cx cy small (omega (arith, le)), next)
              (draw_chars-row h s (cx + char_w) cy small (omega (arith, le)))
      ]

  draw_lines-rows :
      (h : ℕ) (ls : List Text) (cy : ℕ)
      → w < 2 ^ 15
      → All Fits ls
      → cy + length ls < 2 ^ 16
      → (draw_lines char_width w h ls cy).1 ≡ cy + length ls
  unfolding draw_lines
  draw_lines-rows h [] cy small fits few = omega arith
  draw_lines-rows h (line ∷ rest) cy small fits few =
      let row = draw_chars-row h line 0 cy small (omega (arith, fits.0)) in
      let next : (cy + 1) % 2 ^ 16 ≡ cy + 1 = omega (arith, few) in
      rw (row, next)
        (omega (arith, draw_lines-rows h rest (cy + 1) small fits.1 (omega (arith, few))))

  -- A text of which every word fits.
  abbrev pub WordsFit : List Text → Type 0
  WordsFit = All (λ line. All Fits (split_whitespace line))

  text_width-Fits :
      (s : Text) → w < 2 ^ 15 → Fits s → text_width char_width s ≡ columns char_width s
  text_width-Fits s small fits = text_width-columns char_width s (omega (arith, small, fits))

  with_word-columns :
      (line word : Text)
      → w < 2 ^ 15
      → computed_width char_width b' ' ≡ 1
      → Fits line
      → Fits word
      → with_word (columns char_width line) (text_width char_width word)
        ≡ columns char_width (line ++ b' ' ∷ word)
  unfolding columns
  with_word-columns line word small space fit fits =
      rw (text_width-Fits word small fits, columns-append char_width line (b' ' ∷ word), space)
        (omega (arith, small, fit, fits))

  finished-Fits :
      (result : List Text) (line : Text) (has_words : Bool)
      → All Fits result
      → Fits line
      → All Fits (finished (result, (line, has_words)))
  unfolding columns
  finished-Fits result line true fits fit = All-append Fits result (line ∷ []) fits (fit, tt)
  finished-Fits result line false fits fit =
      All-append Fits result ([] ∷ []) fits (omega (arith, fit), tt)

  wrap_words-Fits :
      (words result : List Text) (line : Text) (has_words : Bool)
      → w < 2 ^ 15
      → computed_width char_width b' ' ≡ 1
      → All Fits words
      → All Fits result
      → Fits line
      → All Fits
          (finished (wrap_words char_width w words result line (columns char_width line) has_words))
  unfolding wrap_words
  wrap_words-Fits [] result line has_words small space words fits fit =
      finished-Fits result line has_words fits fit
  wrap_words-Fits (word ∷ words) result line false small space narrow fits fit =
      rw (wrap_words, text_width-Fits word small narrow.0)
        (wrap_words-Fits words result word true small space narrow.1 fits narrow.0)
  wrap_words-Fits (word ∷ words) result line true small space narrow fits fit =
      let longer = with_word-columns line word small space fit narrow.0 in
      elim (Bool-cases (leb (with_word (columns char_width line) (text_width char_width word)) w)) [
        | inl e ↦
            let le = leb→le (columns char_width (line ++ b' ' ∷ word)) w (simp longer at e) in
            rw (wrap_words, e, longer)
              (wrap_words-Fits words result (line ++ b' ' ∷ word) true small space narrow.1 fits le)
        | inr e ↦
            let done = All-append Fits result (line ∷ []) fits (fit, tt) in
            rw (wrap_words, e, text_width-Fits word small narrow.0)
              (wrap_words-Fits words (result ++ line ∷ []) word true small space narrow.1 done
                narrow.0)
      ]

  wrap_line-Fits :
      (line : Text) (result : List Text)
      → w < 2 ^ 15
      → computed_width char_width b' ' ≡ 1
      → All Fits (split_whitespace line)
      → All Fits result
      → All Fits (wrap_line char_width w line result)
  unfolding wrap_line columns
  wrap_line-Fits [] result small space narrow fits =
      finished-Fits result [] false fits (omega arith)
  wrap_line-Fits (c ∷ s) result small space narrow fits =
      wrap_words-Fits (split_whitespace (c ∷ s)) result [] false small space narrow fits
        (omega arith)

  wrap_lines-Fits :
      (ls result : List Text)
      → w < 2 ^ 15
      → computed_width char_width b' ' ≡ 1
      → WordsFit ls
      → All Fits result
      → All Fits (wrap_lines char_width w ls result)
  unfolding wrap_lines
  wrap_lines-Fits [] result small space narrow fits = fits
  wrap_lines-Fits (line ∷ rest) result small space narrow fits =
      wrap_lines-Fits rest (wrap_line char_width w line result) small space narrow.1
        (wrap_line-Fits line result small space narrow.0 fits)

  widest-bound :
      (words : List Text)
      → w < 2 ^ 15
      → widest char_width words ≤ w
      → All (λ s. columns char_width s < 2 ^ 16) words
      → All Fits words
  unfolding widest
  widest-bound [] small le bounded = tt
  widest-bound (word ∷ words) small le bounded =
      let same = text_width-columns char_width word bounded.0 in
      elim (Bool-cases (ltb (widest char_width words) (text_width char_width word))) [
        | inl e ↦
            let here : text_width char_width word ≤ w = simp e at le in
            let more = ltb→lt (widest char_width words) (text_width char_width word) e in
            (
              omega (arith, here, same),
              widest-bound words small (omega (arith, here, more)) bounded.1,
            )
        | inr e ↦
            let there : widest char_width words ≤ w = simp e at le in
            let less = ltb→ge (widest char_width words) (text_width char_width word) e in
            (omega (arith, there, less, same), widest-bound words small there bounded.1)
      ]

  All-words : (ls : List Text) → All Fits (words_of ls) → WordsFit ls
  All-words [] h = tt
  All-words (line ∷ rest) h =
      let (here, there) = All-parts Fits (split_whitespace line) (words_of rest) h in
      (here, All-words rest there)

  -- If a space is one column wide, no word of the text has 2^16 columns, the layout counts fewer
  -- than 2^16 lines for it, and it is drawn in at least as many columns as `longest_word_width` asks
  -- for, of which there are some and fewer than 2^15, then drawing it wrapped at words ends behind as
  -- many rows as the layout counts for it, and no line that is drawn is wider than the columns.
  pub draw_lines-wrapped :
      (h : ℕ) (text : Text)
      → 0 < w
      → w < 2 ^ 15
      → computed_width char_width b' ' ≡ 1
      → All (λ word. columns char_width word < 2 ^ 16) (split_whitespace text)
      → longest_word_width char_width text ≤ w
      → word_wrapped_line_count char_width text w < 2 ^ 16
      → ((draw_lines char_width w h (lines_to_draw char_width WrapMode.word w text) 0).1
          ≡ word_wrapped_line_count char_width text w)
        × All Fits (lines_to_draw char_width WrapMode.word w text)
  unfolding lines_to_draw longest_word_width
  draw_lines-wrapped h text wide small space bounded longest few =
      let words = widest-bound (split_whitespace text) small longest bounded in
      let narrow = All-words (lines text) (subst (All Fits) (sym (words_of-lines text)) words) in
      let fits = wrap_lines-Fits (lines text) [] small space narrow tt in
      let counts : length (wrap_lines char_width w (lines text) [])
          ≡ word_wrapped_line_count char_width text w =
        simp (lt→ltb 0 w wide) at (lines_to_draw-counts char_width w text wide) in
      let rows =
        draw_lines-rows h (wrap_lines char_width w (lines text) []) 0 small fits
          (omega (arith, few, counts)) in
      rw (lt→ltb 0 w wide) (omega (arith, rows, counts), fits)
