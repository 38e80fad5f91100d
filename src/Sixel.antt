-- ===== src/Sixel.antt =====
-- oxiterm-renderer/src/render/sixel.rs: images as sixel graphics. The `image` crate's `RgbaImage` is
-- its two sizes and `get_pixel`. A hash table is a list of its entries; the order in which the table
-- is walked is a parameter.
pub mod Encoder
pub mod Runs
pub mod Palette
pub mod Columns
mod Tests
use oxiterm.Common.{
  ℕ, zero, suc, ◌+◌, ◌-◌, ◌*◌, ◌/◌, ◌^◌, Bool, true, false, not, ◌&&◌, ◌||◌, ◌==◌, ltb, leb, Option,
  none, some, List, [], ◌∷◌, ◌++◌, length, take, drop, replicate, if◌then◌else◌,
}
use oxiterm.Input.Params.Decimal.{decimal}

pub record Rgb : Type 0 where
  pub r : ℕ
  pub g : ℕ
  pub b : ℕ

pub record Rgba : Type 0 where
  pub red : ℕ
  pub green : ℕ
  pub blue : ℕ
  pub alpha : ℕ

pub record RgbaImage : Type 0 where
  pub width : ℕ
  pub height : ℕ
  pub get_pixel : ℕ → ℕ → Rgba

same_rgb : Rgb → Rgb → Bool
same_rgb p q = (p.r == q.r) && ((p.g == q.g) && (p.b == q.b))

abbrev rgb_of : Rgba → Rgb
rgb_of p = record { r = p.red; g = p.green; b = p.blue }

-- `for i in 0..n`, for a loop that appends to its output.
unfoldable pub each : {A : Type 0} → (ℕ → List A) → ℕ → ℕ → List A
each f i zero = []
each f i (suc n) = f i ++ each f (suc i) n

-- `img.pixels()`: the rows from the top.
pixels : RgbaImage → List Rgba
unfolding each
pixels img = each (λ y. each (λ x. img.get_pixel x y ∷ []) 0 img.width) 0 img.height

count_color : Rgb → List (Rgb × ℕ) → List (Rgb × ℕ)
unfolding same_rgb
count_color rgb [] = (rgb, 1) ∷ []
count_color rgb ((c, n) ∷ counts) =
    let later = count_color rgb counts in
    if same_rgb c rgb then (c, n + 1) ∷ counts else (c, n) ∷ later

color_counts : List Rgba → List (Rgb × ℕ) → List (Rgb × ℕ)
unfolding count_color
color_counts [] counts = counts
color_counts (p ∷ ps) counts =
    color_counts ps (if leb 128 p.alpha then count_color (rgb_of p) counts else counts)

-- The stable sort with the larger counts first.
insert_sorted : Rgb × ℕ → List (Rgb × ℕ) → List (Rgb × ℕ)
insert_sorted c [] = c ∷ []
insert_sorted c (d ∷ colors) =
    let later = insert_sorted c colors in if ltb c.1 d.1 then d ∷ later else c ∷ d ∷ colors

sort_by_count : List (Rgb × ℕ) → List (Rgb × ℕ)
unfolding insert_sorted
sort_by_count [] = []
sort_by_count (c ∷ colors) = insert_sorted c (sort_by_count colors)

first_of : List (Rgb × ℕ) → List Rgb
first_of [] = []
first_of ((c, n) ∷ colors) = c ∷ first_of colors

-- The palette is never empty.
or_black : List Rgb → List Rgb
or_black [] = record { r = 0; g = 0; b = 0 } ∷ []
or_black (c ∷ palette) = c ∷ palette

unfoldable pub palette_of : (List (Rgb × ℕ) → List (Rgb × ℕ)) → RgbaImage → ℕ → List Rgb
unfolding or_black first_of sort_by_count color_counts pixels
palette_of walk img palette_size =
    or_black (first_of (take palette_size (sort_by_count (walk (color_counts (pixels img) [])))))

-- The square of the difference of two channels.
square_diff : ℕ → ℕ → ℕ
square_diff a b = if leb b a then (a - b) * (a - b) else (b - a) * (b - a)

unfoldable pub dist : Rgba → Rgb → ℕ
unfolding square_diff
dist p c = square_diff p.red c.r + square_diff p.green c.g + square_diff p.blue c.b

-- The loop over the palette, from an index on.
unfoldable pub nearest : Rgba → List Rgb → ℕ → ℕ → ℕ → ℕ
unfolding dist
nearest p [] i best_idx min_dist = best_idx
nearest p (c ∷ palette) i best_idx min_dist = elim (dist p c == 0) [
  | true ↦ i
  | false ↦ elim (ltb (dist p c) min_dist) [
    | true ↦ nearest p palette (suc i) i (dist p c)
    | false ↦ nearest p palette (suc i) best_idx min_dist
  ]
]

-- The `get_color_index` of `encode_sixel`; the minimum starts at `u32::MAX`.
unfoldable pub get_color_index : List Rgb → Rgba → Option ℕ
unfolding nearest
get_color_index palette p =
    if ltb p.alpha 128 then none else some (nearest p palette 0 0 (2 ^ 32 - 1))

abs_diff : ℕ → ℕ → ℕ
abs_diff a b = if leb b a then a - b else b - a

-- The `get_color_index` of `encode_sixel_static`.
unfoldable pub static_color_index : Rgba → Option ℕ
unfolding abs_diff
static_color_index p =
    if ltb p.alpha 128
    then none
    else if ltb (abs_diff p.red p.green) 8
        && (ltb (abs_diff p.green p.blue) 8 && ltb (abs_diff p.red p.blue) 8)
    then some (216 + (p.red + p.green + p.blue) / 3 * 23 / 255)
    else some
        ((p.red * 5 + 127) / 255 * 36 + (p.green * 5 + 127) / 255 * 6 + (p.blue * 5 + 127) / 255)

same_index : Option ℕ → ℕ → Bool
same_index none color_idx = false
same_index (some idx) color_idx = idx == color_idx

-- The bits from one on; they are distinct, so that `|=` adds them.
unfoldable pub bits_from : (ℕ → Bool) → ℕ → ℕ → ℕ
bits_from sets bit_idx zero = 0
bits_from sets bit_idx (suc n) =
    (if sets bit_idx then 2 ^ bit_idx else 0) + bits_from sets (suc bit_idx) n

module _ (index_of : Rgba → Option ℕ) (img : RgbaImage) where
  -- Whether a pixel of a column sets its bit; there is none below the image.
  unfoldable pub has_color : ℕ → ℕ → ℕ → Bool
  unfolding same_index
  has_color color_idx x y =
      if ltb y img.height then same_index (index_of (img.get_pixel x y)) color_idx else false

  unfoldable pub sixel_val : ℕ → ℕ → ℕ → ℕ
  unfolding has_color bits_from
  sixel_val color_idx y_start x =
      bits_from (λ bit_idx. has_color color_idx x (y_start + bit_idx)) 0 6

  unfoldable pub char_row : ℕ → ℕ → List ℕ
  unfolding each sixel_val
  char_row color_idx y_start = each (λ x. (63 + sixel_val color_idx y_start x) ∷ []) 0 img.width

-- `color_present_in_band`: some column has a bit.
unfoldable pub is_present : List ℕ → Bool
is_present [] = false
is_present (c ∷ chars) = not (c == 63) || is_present chars

-- The inner loop of `sixel_rle_compress`: how many equal characters follow.
unfoldable pub run_length : ℕ → List ℕ → ℕ
run_length ch [] = 0
run_length ch (c ∷ chars) = let rest = run_length ch chars in if c == ch then suc rest else 0

unfoldable pub packet : ℕ → ℕ → List ℕ
packet count ch = if leb 3 count then b'!' ∷ decimal count ++ ch ∷ [] else replicate count ch

-- The outer loop; each turn takes at least one character.
unfoldable pub compress_from : ℕ → List ℕ → List ℕ
unfolding run_length packet
compress_from zero chars = []
compress_from (suc turns) [] = []
compress_from (suc turns) (ch ∷ chars) =
    packet (suc (run_length ch chars)) ch ++ compress_from turns (drop (run_length ch chars) chars)

unfoldable pub sixel_rle_compress : List ℕ → List ℕ
unfolding compress_from
sixel_rle_compress chars = compress_from (length chars) chars
