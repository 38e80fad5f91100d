-- ===== src/Sixel/Columns.antt =====
-- The characters of a row: bit k of one is set exactly where the k-th pixel of its column has the
-- colour of the row.
use oxiterm.Common.{
  ℕ, zero, suc, ◌+◌, ◌*◌, ◌/◌, ◌%◌, ◌^◌, ◌≤◌, ◌<◌, ◌≡◌, ap, ◌∙◌, Bool, true, false, Option, some,
  [], ◌∷◌, get_elem?, arith, All, if◌then◌else◌,
}
use oxiterm.Sixel.{
  Rgba, RgbaImage, each, bits_from, has_color, sixel_val, char_row, sixel_rle_compress,
}
use oxiterm.Sixel.Runs.{IsSixel, expand, expand-sixel_rle_compress}

-- A bit as a number.
unfoldable pub bit : Bool → ℕ
bit true = 1
bit false = 0

bit-bound : (b : Bool) → bit b ≤ 1
unfolding bit
bit-bound true = omega arith
bit-bound false = omega arith

weight-bit : (b : Bool) (w : ℕ) → (if b then w else 0) ≡ w * bit b
unfolding bit
weight-bit true w = omega arith
weight-bit false w = omega arith

module _ (sets : ℕ → Bool) where
  bits-written :
      bits_from sets 0 6
      ≡ bit (sets 0)
        + (2 * bit (sets 1)
            + (4 * bit (sets 2) + (8 * bit (sets 3) + (16 * bit (sets 4) + 32 * bit (sets 5)))))
  unfolding bits_from
  bits-written = omega (
    arith,
    weight-bit (sets 0) 1,
    weight-bit (sets 1) 2,
    weight-bit (sets 2) 4,
    weight-bit (sets 3) 8,
    weight-bit (sets 4) 16,
    weight-bit (sets 5) 32,
  )

  bits-below : bits_from sets 0 6 < 64
  bits-below = omega (
    arith,
    bits-written,
    bit-bound (sets 0),
    bit-bound (sets 1),
    bit-bound (sets 2),
    bit-bound (sets 3),
    bit-bound (sets 4),
    bit-bound (sets 5),
  )

  bits-read : (k : ℕ) → k < 6 → bits_from sets 0 6 / 2 ^ k % 2 ≡ bit (sets k)
  bits-read k lt =
      read k lt bits-written (bit-bound (sets 0)) (bit-bound (sets 1)) (bit-bound (sets 2))
        (bit-bound (sets 3)) (bit-bound (sets 4)) (bit-bound (sets 5))
    where
      read :
          (k : ℕ)
          → k < 6
          → bits_from sets 0 6
            ≡ bit (sets 0)
              + (2 * bit (sets 1)
                  + (4 * bit (sets 2)
                      + (8 * bit (sets 3) + (16 * bit (sets 4) + 32 * bit (sets 5)))))
          → bit (sets 0) ≤ 1
          → bit (sets 1) ≤ 1
          → bit (sets 2) ≤ 1
          → bit (sets 3) ≤ 1
          → bit (sets 4) ≤ 1
          → bit (sets 5) ≤ 1
          → bits_from sets 0 6 / 2 ^ k % 2 ≡ bit (sets k)
      read zero lt e a b c d f g = omega arith
      read (suc zero) lt e a b c d f g = omega arith
      read (suc (suc zero)) lt e a b c d f g = omega arith
      read (suc (suc (suc zero))) lt e a b c d f g = omega arith
      read (suc (suc (suc (suc zero)))) lt e a b c d f g = omega arith
      read (suc (suc (suc (suc (suc zero))))) lt e a b c d f g = omega arith
      read (suc (suc (suc (suc (suc (suc k)))))) lt e a b c d f g = absurd (omega (arith, lt))

get_elem?-each :
    (f : ℕ → ℕ) (n i x j : ℕ)
    → x < n
    → i + x ≡ j
    → get_elem? (each (λ m. f m ∷ []) i n) x ≡ some (f j)
unfolding each
get_elem?-each f zero i x j lt e = absurd (omega (arith, lt))
get_elem?-each f (suc n) i zero j lt e = ap (λ m. some (f m)) (omega (arith, e))
get_elem?-each f (suc n) i (suc x) j lt e =
    get_elem?-each f n (suc i) x j (omega (arith, lt)) (omega (arith, e))

each-All :
    (f : ℕ → ℕ) (n i : ℕ) → ((j : ℕ) → IsSixel (f j)) → All IsSixel (each (λ j. f j ∷ []) i n)
unfolding each
each-All f zero i h = tt
each-All f (suc n) i h = (h i, each-All f n (suc i) h)

module _ (index_of : Rgba → Option ℕ) (img : RgbaImage) where
  char-IsSixel :
      (color_idx y_start x : ℕ) → IsSixel (63 + sixel_val index_of img color_idx y_start x)
  unfolding sixel_val
  char-IsSixel color_idx y_start x =
      let below = bits-below (λ k. has_color index_of img color_idx x (y_start + k)) in
      (omega arith, omega (arith, below))

  -- What a terminal makes of the row of a colour in a band: at each column of the image it has a
  -- character, of whose six bits the k-th is set exactly if the pixel k lines below the start of the
  -- band is in the image and has that colour.
  pub char_row-Shows :
      (color_idx y_start x k : ℕ)
      → x < img.width
      → k < 6
      → (v : ℕ) × (get_elem?
            (expand (sixel_rle_compress (char_row index_of img color_idx y_start)))
            x
          ≡ some (63 + v))
        × (v / 2 ^ k % 2 ≡ bit (has_color index_of img color_idx x (y_start + k)))
  unfolding char_row sixel_val
  char_row-Shows color_idx y_start x k lt kt = (
    sixel_val index_of img color_idx y_start x,
    ap (λ l. get_elem? l x)
          (expand-sixel_rle_compress (char_row index_of img color_idx y_start) (
            each-All (λ j. 63 + sixel_val index_of img color_idx y_start j) img.width 0
              (char-IsSixel color_idx y_start)))
        ∙ get_elem?-each (λ j. 63 + sixel_val index_of img color_idx y_start j) img.width 0 x x lt
            (omega arith),
    bits-read (λ j. has_color index_of img color_idx x (y_start + j)) k kt,
  )
