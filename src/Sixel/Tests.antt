-- ===== src/Sixel/Tests.antt =====
-- The tests of sixel.rs, and a red image of two by two pixels.
use oxiterm.Common.{ℕ, ◌+◌, ◌/◌, ◌%◌, ◌^◌, ◌≡◌, refl, some, [], ◌∷◌, ◌++◌, get_elem?, arith}
use oxiterm.Common.Texts.{codes}
use oxiterm.Input.Params.Decimal.{decimal}
use oxiterm.Sixel.{
  Rgb, Rgba, RgbaImage, each, palette_of, dist, get_color_index, static_color_index, has_color,
  char_row, bits_from, sixel_val, sixel_rle_compress, run_length, packet, is_present,
}
use oxiterm.Sixel.Encoder.{encode_sixel, band}
use oxiterm.Sixel.Palette.{IsPixel, IsColor, IsNearest, get_color_index-IsNearest}
use oxiterm.Sixel.Runs.{expand}
use oxiterm.Sixel.Columns.{bit, char_row-Shows}

abbrev red : Rgba
red = record { red = 255; green = 0; blue = 0; alpha = 255 }

abbrev image : RgbaImage
image = record { width = 2; height = 2; get_pixel = λ x y. red }

abbrev red_color : Rgb
red_color = record { r = 255; g = 0; b = 0 }

compressed : sixel_rle_compress (codes "AAAAABBBCC") ≡ codes "!5A!3BCC"
unfolding sixel_rle_compress packet run_length decimal
compressed = refl

expanded : expand (codes "!12A!3BCC") ≡ codes "AAAAAAAAAAAABBBCC"
unfolding oxiterm.Sixel.Runs.expand_from
expanded = refl

encoded :
    encode_sixel (λ counts. counts) image 256
    ≡ 0x1b ∷ codes "Pq" ++ 0x22 ∷ codes "1;1;2;2#0;2;100;0;0#0BB-" ++ 0x1b ∷ 0x5c ∷ []
unfolding encode_sixel palette_of get_color_index dist each char_row sixel_val bits_from has_color
    band is_present sixel_rle_compress packet run_length decimal
encoded = refl

static_index : static_color_index red ≡ some 180
unfolding static_color_index
static_index = refl

red-IsPixel : IsPixel red
red-IsPixel = record { red = omega arith; green = omega arith; blue = omega arith }

red_color-IsColor : IsColor red_color
red_color-IsColor = record { r = omega arith; g = omega arith; b = omega arith }

get_color_index-IsNearest_example :
    (idx : ℕ) × (get_color_index (red_color ∷ []) red ≡ some idx)
    × IsNearest red (red_color ∷ []) idx
get_color_index-IsNearest_example =
    get_color_index-IsNearest red red_color [] red-IsPixel red_color-IsColor (omega arith)

char_row-Shows_example :
    (v : ℕ) × (get_elem? (expand (sixel_rle_compress (char_row static_color_index image 180 0))) 1
      ≡ some (63 + v))
    × (v / 2 ^ 1 % 2 ≡ bit (has_color static_color_index image 180 1 (0 + 1)))
char_row-Shows_example =
    char_row-Shows static_color_index image 180 0 1 1 (omega arith) (omega arith)
