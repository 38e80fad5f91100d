-- ===== src/Wrap/Tests.antt =====
-- Texts with narrow and wide characters, wrapped and drawn.
use oxiterm.Common.{
  ℕ, ◌^◌, ◌<◌, ◌≤◌, ◌≡◌, refl, Option, some, [], ◌∷◌, ◌++◌, length, ltb, All, arith, if◌then◌else◌,
}
use oxiterm.Common.Texts.{Text, codes, split_if, cons_first, is_whitespace}
use oxiterm.Style.Computed.{WrapMode}
use oxiterm.Unicode.{computed_width}
use oxiterm.Wrap.{
  lines, lines_of, strip_cr, non_empty, split_whitespace, text_width, widest, longest_word_width,
  count_words, count_line, count_lines, word_wrapped_line_count, wrap_words, wrap_line, wrap_lines,
  lines_to_draw, draw_chars, draw_lines,
}
use oxiterm.Wrap.Agree.{lines_to_draw-counts}
use oxiterm.Wrap.Splits.{words_of}
use oxiterm.Wrap.Words.{lines_to_draw-words}
use oxiterm.Wrap.Rows.{columns, Fits, draw_lines-wrapped}

-- Characters from Hangul on take two columns.
abbrev widths : ℕ → Option ℕ
widths c = some (if ltb 0x10ff c then 2 else 1)

-- Two lines, the first with a carriage return and the second with a wide character.
abbrev sample_text : Text
sample_text = codes "to be or\r\nnot " ++ 0x65e5 ∷ []

-- One word of three wide characters.
abbrev wide_word : Text
wide_word = 0x65e5 ∷ 0x672c ∷ 0x8a9e ∷ []

sample_text-lines :
    lines_to_draw widths WrapMode.word 5 sample_text
    ≡ codes "to be" ∷ codes "or" ∷ codes "not" ∷ (0x65e5 ∷ []) ∷ []
unfolding lines_to_draw lines lines_of strip_cr split_if cons_first wrap_lines wrap_line wrap_words
    split_whitespace non_empty is_whitespace text_width computed_width
sample_text-lines = refl

-- The word is wider than the columns: it is one line, but is drawn in three rows.
wide_word-rows :
    (word_wrapped_line_count widths wide_word 3 ≡ 1)
    × ((draw_lines widths 3 9 (lines_to_draw widths WrapMode.word 3 wide_word) 0).1 ≡ 3)
unfolding lines_to_draw lines lines_of strip_cr split_if cons_first wrap_lines wrap_line wrap_words
    split_whitespace non_empty is_whitespace text_width computed_width draw_lines draw_chars
    word_wrapped_line_count count_lines count_line count_words
wide_word-rows = (refl, refl)

lines_to_draw-counts_example :
    length (lines_to_draw widths WrapMode.word 5 sample_text)
    ≡ word_wrapped_line_count widths sample_text 5
lines_to_draw-counts_example = lines_to_draw-counts widths 5 sample_text (omega arith)

lines_to_draw-words_example :
    words_of (lines_to_draw widths WrapMode.word 5 sample_text) ≡ split_whitespace sample_text
lines_to_draw-words_example = lines_to_draw-words widths 5 WrapMode.word sample_text

sample_text-bounded : All (λ word. columns widths word < 2 ^ 16) (split_whitespace sample_text)
unfolding split_if cons_first split_whitespace non_empty is_whitespace computed_width columns
sample_text-bounded = (omega arith, (omega arith, (omega arith, (omega arith, (omega arith, tt)))))

sample_text-longest : longest_word_width widths sample_text ≤ 5
unfolding longest_word_width widest text_width split_if cons_first split_whitespace non_empty
    is_whitespace computed_width
sample_text-longest = omega arith

sample_text-few : word_wrapped_line_count widths sample_text 5 < 2 ^ 16
unfolding word_wrapped_line_count count_lines count_line count_words lines lines_of strip_cr
    text_width split_if cons_first split_whitespace non_empty is_whitespace computed_width
sample_text-few = omega arith

draw_lines-wrapped_example :
    ((draw_lines widths 5 9 (lines_to_draw widths WrapMode.word 5 sample_text) 0).1
      ≡ word_wrapped_line_count widths sample_text 5)
    × All (Fits widths 5) (lines_to_draw widths WrapMode.word 5 sample_text)
unfolding computed_width
draw_lines-wrapped_example =
    draw_lines-wrapped widths 5 9 sample_text (omega arith) (omega arith) refl sample_text-bounded
      sample_text-longest sample_text-few
