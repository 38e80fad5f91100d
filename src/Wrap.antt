-- ===== src/Wrap.antt =====
-- How a text is broken into lines: oxiterm-renderer/src/layout/engine.rs counts them
-- (`word_wrapped_line_count`), and `Renderer::render_single_node` of render/renderer.rs draws them.
-- Widths are `u16`, whose sums wrap; the table of the crate `unicode-width` is a parameter.
mod Tests
pub mod Agree
pub mod Splits
pub mod Lines
pub mod Words
pub mod Rows
use oxiterm.Common.{
  ℕ, zero, suc, ◌+◌, ◌-◌, ◌%◌, ◌^◌, Bool, true, false, ◌&&◌, ◌==◌, ltb, leb, Option, List, [], ◌∷◌,
  ◌++◌, length, if◌then◌else◌,
}
use oxiterm.Common.Texts.{Text, is_empty_text, is_whitespace, split_if}
use oxiterm.Style.Computed.{WrapMode}
use oxiterm.Unicode.{computed_width}

-- A line without the carriage return before its line feed.
unfoldable pub strip_cr : Text → Text
strip_cr [] = []
strip_cr (c ∷ []) = if c == 0xd then [] else c ∷ []
strip_cr (c ∷ d ∷ s) = c ∷ strip_cr (d ∷ s)

unfoldable pub lines_of : List Text → List Text
unfolding strip_cr
lines_of [] = []
lines_of (last ∷ []) = if is_empty_text last then [] else last ∷ []
lines_of (line ∷ next ∷ rest) = strip_cr line ∷ lines_of (next ∷ rest)

-- `str::lines`: what stands behind the last line feed is a line only if it is not empty.
unfoldable pub lines : Text → List Text
unfolding lines_of split_if
lines s = lines_of (split_if (λ c. c == 0xa) s)

unfoldable pub non_empty : List Text → List Text
non_empty [] = []
non_empty (s ∷ ss) = let rest = non_empty ss in if is_empty_text s then rest else s ∷ rest

-- `str::split_whitespace`
unfoldable pub split_whitespace : Text → List Text
unfolding non_empty split_if is_whitespace
split_whitespace s = non_empty (split_if is_whitespace s)

-- The line with one word more, in columns.
abbrev pub with_word : ℕ → ℕ → ℕ
with_word current word_w = (current + 1 + word_w) % 2 ^ 16

-- A line without words counts once.
abbrev pub counted_lines : Bool × ℕ → ℕ
counted_lines (true, total) = total
counted_lines (false, total) = total + 1

-- The last line of the words, or an empty one.
abbrev pub finished : List Text × (Text × Bool) → List Text
finished (result, (line, true)) = result ++ line ∷ []
finished (result, (line, false)) = result ++ [] ∷ []

-- The cells of a character behind its first one.
continuation : ℕ → ℕ → ℕ → ℕ → List (ℕ × (ℕ × ℕ))
continuation inner_w cx cy zero = []
continuation inner_w cx cy (suc n) =
    (if ltb cx inner_w then (cx, (cy, b' ')) ∷ [] else [])
    ++ continuation inner_w ((cx + 1) % 2 ^ 16) cy n

-- The column and the row of a character: a wide one that does not fit goes to the next row.
abbrev pub placed : ℕ → ℕ → ℕ → ℕ → ℕ × ℕ
placed inner_w char_w cx cy =
    if ltb 1 char_w && (ltb inner_w ((cx + char_w) % 2 ^ 16) && leb char_w inner_w)
    then (0, (cy + 1) % 2 ^ 16)
    else (cx, cy)

-- The cells that a character of some width sets from a place on.
cells_at : ℕ → ℕ → ℕ → ℕ → ℕ × ℕ → List (ℕ × (ℕ × ℕ))
unfolding continuation
cells_at inner_w inner_h ch char_w (cx, cy) =
    if ltb cx inner_w && ltb cy inner_h
    then (cx, (cy, ch)) ∷ continuation inner_w ((cx + 1) % 2 ^ 16) cy (char_w - 1)
    else []

module _ (char_width : ℕ → Option ℕ) where
  -- `chars().map(width).sum::<u16>()`
  unfoldable pub text_width : Text → ℕ
  unfolding computed_width
  text_width [] = 0
  text_width (c ∷ s) = (computed_width char_width c + text_width s) % 2 ^ 16

  -- `.max().unwrap_or(0)`
  unfoldable pub widest : List Text → ℕ
  unfolding text_width
  widest [] = 0
  widest (s ∷ ss) = let rest = widest ss in if ltb rest (text_width s) then text_width s else rest

  pub text_intrinsic_width : Text → ℕ
  unfolding widest lines
  text_intrinsic_width text = widest (lines text)

  unfoldable pub longest_word_width : Text → ℕ
  unfolding widest split_whitespace
  longest_word_width text = widest (split_whitespace text)

  -- The loop of `word_wrapped_line_count` over the words of a line: whether it has words, and the
  -- lines.
  unfoldable pub count_words : ℕ → List Text → ℕ → Bool → ℕ → Bool × ℕ
  unfolding text_width
  count_words max_w [] current has_words total = (has_words, total)
  count_words max_w (word ∷ words) current false total =
      count_words max_w words (text_width word) true (total + 1)
  count_words max_w (word ∷ words) current true total =
      elim (leb (with_word current (text_width word)) max_w) [
        | true ↦ count_words max_w words (with_word current (text_width word)) true total
        | false ↦ count_words max_w words (text_width word) true (total + 1)
      ]

  unfoldable pub count_line : ℕ → Text → ℕ → ℕ
  unfolding count_words split_whitespace
  count_line max_w [] total = total + 1
  count_line max_w (c ∷ s) total =
      counted_lines (count_words max_w (split_whitespace (c ∷ s)) 0 false total)

  unfoldable pub count_lines : ℕ → List Text → ℕ → ℕ
  unfolding count_line
  count_lines max_w [] total = total
  count_lines max_w (line ∷ rest) total = count_lines max_w rest (count_line max_w line total)

  unfoldable pub word_wrapped_line_count : Text → ℕ → ℕ
  unfolding count_lines lines
  word_wrapped_line_count text max_w = count_lines max_w (lines text) 0

  -- The height of `measure_wrap_text`, for a width of so many columns.
  unfoldable pub measured_lines : Text → ℕ → ℕ
  unfolding word_wrapped_line_count lines
  measured_lines text width =
      let count = if leb 1 width then word_wrapped_line_count text width else length (lines text) in
      if leb 1 count then count else 1

  -- The loop of the renderer over the words of a line: the lines that are finished, the current one
  -- and whether it has words.
  unfoldable pub wrap_words :
      ℕ → List Text → List Text → Text → ℕ → Bool → List Text × (Text × Bool)
  unfolding text_width
  wrap_words inner_w [] result line current has_words = (result, (line, has_words))
  wrap_words inner_w (word ∷ words) result line current false =
      wrap_words inner_w words result word (text_width word) true
  wrap_words inner_w (word ∷ words) result line current true =
      elim (leb (with_word current (text_width word)) inner_w) [
        | true ↦
            wrap_words inner_w words result (line ++ b' ' ∷ word)
              (with_word current (text_width word)) true
        | false ↦ wrap_words inner_w words (result ++ line ∷ []) word (text_width word) true
      ]

  unfoldable pub wrap_line : ℕ → Text → List Text → List Text
  unfolding wrap_words split_whitespace
  wrap_line inner_w [] result = result ++ [] ∷ []
  wrap_line inner_w (c ∷ s) result =
      finished (wrap_words inner_w (split_whitespace (c ∷ s)) result [] 0 false)

  unfoldable pub wrap_lines : ℕ → List Text → List Text → List Text
  unfolding wrap_line
  wrap_lines inner_w [] result = result
  wrap_lines inner_w (line ∷ rest) result = wrap_lines inner_w rest (wrap_line inner_w line result)

  unfoldable pub lines_to_draw : WrapMode → ℕ → Text → List Text
  unfolding wrap_lines lines
  lines_to_draw WrapMode.word inner_w text =
      if ltb 0 inner_w then wrap_lines inner_w (lines text) [] else lines text
  lines_to_draw WrapMode.no_wrap inner_w text = lines text

  -- The loop over the characters of a line: the cells that are set, by their columns and rows, and
  -- the row it ends in.
  unfoldable pub draw_chars : ℕ → ℕ → Text → ℕ → ℕ → List (ℕ × (ℕ × ℕ)) × ℕ
  unfolding cells_at computed_width
  draw_chars inner_w inner_h [] cx cy = ([], cy)
  draw_chars inner_w inner_h (ch ∷ s) cx cy = elim (ltb 0 (computed_width char_width ch)) [
    | false ↦ draw_chars inner_w inner_h s cx cy
    | true ↦
        let at = placed inner_w (computed_width char_width ch) cx cy in
        let (cells, last) =
          draw_chars inner_w inner_h s ((at.0 + computed_width char_width ch) % 2 ^ 16) at.1 in
        (cells_at inner_w inner_h ch (computed_width char_width ch) at ++ cells, last)
  ]

  -- The loop over the lines: the cells, and the row behind the last line.
  unfoldable pub draw_lines : ℕ → ℕ → List Text → ℕ → List (ℕ × (ℕ × ℕ)) × ℕ
  unfolding draw_chars
  draw_lines inner_w inner_h [] cy = ([], cy)
  draw_lines inner_w inner_h (line ∷ rest) cy =
      let (cells, last) = draw_chars inner_w inner_h line 0 cy in
      let (others, behind) = draw_lines inner_w inner_h rest ((last + 1) % 2 ^ 16) in
      (cells ++ others, behind)
