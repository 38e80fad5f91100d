-- ===== src/Sixel/Encoder.antt =====
-- The output of `encode_sixel` and `encode_sixel_static`.
use oxiterm.Common.{
  ℕ, zero, suc, ◌+◌, ◌*◌, ◌/◌, Bool, false, ◌||◌, ◌==◌, ltb, Option, none, some, List, [], ◌∷◌,
  ◌++◌, length, if◌then◌else◌,
}
use oxiterm.Common.Texts.{codes}
use oxiterm.Input.Params.Decimal.{decimal}
use oxiterm.Sixel.{
  Rgb, RgbaImage, each, palette_of, get_color_index, static_color_index, char_row, is_present,
  sixel_rle_compress,
}

-- `format!("#{}", color_idx)` and the definition of a register, in percent.
color_ref : ℕ → List ℕ
color_ref color_idx = b'#' ∷ decimal color_idx

color_def : ℕ → ℕ → ℕ → ℕ → List ℕ
unfolding color_ref
color_def i r_pct g_pct b_pct =
    color_ref i ++ codes ";2;" ++ decimal r_pct ++ b';' ∷ decimal g_pct ++ b';' ∷ decimal b_pct

header : RgbaImage → List ℕ
header img =
    0x1b ∷ b'P' ∷ b'q' ∷ 0x22 ∷ codes "1;1;" ++ decimal img.width ++ b';' ∷ decimal img.height

palette_defs : ℕ → List Rgb → List ℕ
unfolding color_def
palette_defs i [] = []
palette_defs i (c ∷ palette) =
    color_def i (c.r * 100 / 255) (c.g * 100 / 255) (c.b * 100 / 255)
    ++ palette_defs (suc i) palette

static_defs : List ℕ
unfolding each color_def
static_defs =
    each
      (λ r.
        each (λ g. each (λ b. color_def (r * 36 + g * 6 + b) (r * 20) (g * 20) (b * 20)) 0 6) 0 6)
      0 6
    ++ each
        (λ g_idx. color_def (216 + g_idx) (g_idx * 100 / 23) (g_idx * 100 / 23) (g_idx * 100 / 23))
        0 24

-- The rows of one band, a colour after the other.
band_rows : (ℕ → List ℕ) → List ℕ → List ℕ
unfolding is_present color_ref sixel_rle_compress
band_rows row [] = []
band_rows row (color_idx ∷ colors) =
    (if is_present (row color_idx)
      then color_ref color_idx ++ sixel_rle_compress (row color_idx) ++ b'$' ∷ []
      else [])
    ++ band_rows row colors

-- `if band_has_colors && output.last() == Some(&b'$') { output.pop(); }`
drop_return : List ℕ → List ℕ
drop_return [] = []
drop_return (c ∷ []) = if c == b'$' then [] else c ∷ []
drop_return (c ∷ d ∷ cs) = c ∷ drop_return (d ∷ cs)

unfoldable pub band : (ℕ → List ℕ) → List ℕ → List ℕ
unfolding drop_return band_rows
band row colors = drop_return (band_rows row colors) ++ b'-' ∷ []

-- The numbers from one on.
abbrev range : ℕ → ℕ → List ℕ
range i zero = []
range i (suc n) = i ∷ range (suc i) n

terminator : List ℕ
terminator = 0x1b ∷ 0x5c ∷ []

unfoldable pub encode_sixel : (List (Rgb × ℕ) → List (Rgb × ℕ)) → RgbaImage → ℕ → List ℕ
unfolding palette_of get_color_index char_row band header palette_defs each terminator
encode_sixel walk img palette_size =
    let palette = palette_of walk img palette_size in
    header img
    ++ palette_defs 0 palette
    ++ each
        (λ band_idx.
          band (λ color_idx. char_row (get_color_index palette) img color_idx (band_idx * 6))
            (range 0 (length palette)))
        0 ((img.height + 5) / 6)
    ++ terminator

contains_index : List ℕ → ℕ → Bool
contains_index [] i = false
contains_index (j ∷ js) i = (j == i) || contains_index js i

-- `used_colors.insert(idx)` for a pixel that has a colour.
insert_used : Option ℕ → List ℕ → List ℕ
unfolding contains_index
insert_used none used = used
insert_used (some idx) used = if contains_index used idx then used else idx ∷ used

insert_all_used : List (Option ℕ) → List ℕ → List ℕ
unfolding insert_used
insert_all_used [] used = used
insert_all_used (i ∷ is) used = insert_all_used is (insert_used i used)

used_colors : RgbaImage → ℕ → List ℕ
unfolding insert_all_used each static_color_index
used_colors img y_start =
    insert_all_used
      (each
        (λ x.
          each
            (λ bit_idx.
              if ltb (y_start + bit_idx) img.height
              then static_color_index (img.get_pixel x (y_start + bit_idx)) ∷ []
              else [])
            0 6)
        0 img.width)
      []

unfoldable pub encode_sixel_static : (List ℕ → List ℕ) → RgbaImage → List ℕ
unfolding static_color_index char_row band header static_defs each terminator used_colors
encode_sixel_static walk img =
    header img
    ++ static_defs
    ++ each
        (λ band_idx.
          band (λ color_idx. char_row static_color_index img color_idx (band_idx * 6))
            (walk (used_colors img (band_idx * 6))))
        0 ((img.height + 5) / 6)
    ++ terminator
