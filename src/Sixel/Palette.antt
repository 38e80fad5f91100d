-- ===== src/Sixel/Palette.antt =====
-- The registers that pixels get: the nearest colour of a palette, and an index of the static one.
use oxiterm.Common.{
  ℕ, suc, ◌+◌, ◌-◌, ◌*◌, ◌/◌, ◌^◌, ◌≤◌, ◌<◌, ◌≡◌, ◌≢◌, refl, sym, ap, ◌∙◌, subst, leb, some, List,
  [], ◌∷◌, ◌++◌, append-nil, append_assoc, length, get_elem?, get_elem?-middle, All, arith,
  Bool-cases, inl, inr, length-append, dec_lt, ℕ_discrete,
}
use oxiterm.Sixel.{Rgb, Rgba, dist, square_diff, nearest, get_color_index, static_color_index}

-- The channels are `u8`.
pub record IsPixel (p : Rgba) : Type 0 where
  pub red : p.red < 256
  pub green : p.green < 256
  pub blue : p.blue < 256

pub record IsColor (c : Rgb) : Type 0 where
  pub r : c.r < 256
  pub g : c.g < 256
  pub b : c.b < 256

square-bound : (a n : ℕ) → a ≤ n → a * a ≤ n * n
square-bound a n h = grind arith

square_diff-bound : (a b : ℕ) → a < 256 → b < 256 → square_diff a b ≤ 255 * 255
unfolding square_diff
square_diff-bound a b ha hb = elim (Bool-cases (leb b a)) [
  | inl e ↦ rw (square_diff, e) (square-bound (a - b) 255 (omega arith))
  | inr e ↦ rw (square_diff, e) (square-bound (b - a) 255 (omega arith))
]

-- A distance is less than the first minimum.
dist-bound : (p : Rgba) (c : Rgb) → IsPixel p → IsColor c → dist p c < 2 ^ 32 - 1
unfolding dist
dist-bound p c hp hc = omega (
  arith,
  square_diff-bound p.red c.r hp.red hc.r,
  square_diff-bound p.green c.g hp.green hc.g,
  square_diff-bound p.blue c.b hp.blue hc.b,
)

-- An index is that of a colour that no colour of the list is nearer than.
pub record IsNearest (p : Rgba) (palette : List Rgb) (idx : ℕ) : Type 0 where
  pub color : Rgb
  pub at : get_elem? palette idx ≡ some color
  pub least : All (λ c. dist p color ≤ dist p c) palette

module _ (p : Rgba) where
  abbrev AtLeast : ℕ → List Rgb → Type 0
  AtLeast d palette = All (λ c. d ≤ dist p c) palette

  AtLeast-trans : (d e : ℕ) (palette : List Rgb) → d ≤ e → AtLeast e palette → AtLeast d palette
  AtLeast-trans d e [] le h = tt
  AtLeast-trans d e (c ∷ palette) le h = (omega (arith, le, h.0), AtLeast-trans d e palette le h.1)

  AtLeast-zero : (palette : List Rgb) → AtLeast 0 palette
  AtLeast-zero [] = tt
  AtLeast-zero (c ∷ palette) = (omega arith, AtLeast-zero palette)

  AtLeast-append : (d : ℕ) (xs ys : List Rgb) → AtLeast d xs → AtLeast d ys → AtLeast d (xs ++ ys)
  AtLeast-append d [] ys h g = g
  AtLeast-append d (c ∷ xs) ys h g = (h.0, AtLeast-append d xs ys h.1 g)

  -- The best of the colours that are seen already.
  record Best (palette seen : List Rgb) (best min_dist : ℕ) : Type 0 where
    color : Rgb
    at : get_elem? palette best ≡ some color
    least : AtLeast min_dist seen
    is_min : dist p color ≡ min_dist

  nearest-found :
      (c : Rgb) (rest : List Rgb) (i best m : ℕ) → dist p c ≡ 0 → nearest p (c ∷ rest) i best m ≡ i
  unfolding nearest
  nearest-found c rest i best m z = ground (arith, z)

  nearest-less :
      (c : Rgb) (rest : List Rgb) (i best m : ℕ)
      → dist p c ≢ 0
      → dist p c < m
      → nearest p (c ∷ rest) i best m ≡ nearest p rest (suc i) i (dist p c)
  unfolding nearest
  nearest-less c rest i best m ne lt = ground (arith, ne, lt)

  nearest-not_less :
      (c : Rgb) (rest : List Rgb) (i best m : ℕ)
      → dist p c ≢ 0
      → m ≤ dist p c
      → nearest p (c ∷ rest) i best m ≡ nearest p rest (suc i) best m
  unfolding nearest
  nearest-not_less c rest i best m ne le = ground (arith, ne, le)

  -- A colour at no distance is the nearest.
  found-IsNearest :
      (palette seen rest : List Rgb) (c : Rgb)
      → palette ≡ seen ++ c ∷ rest
      → dist p c ≡ 0
      → IsNearest p palette (length seen)
  found-IsNearest palette seen rest c e z = record {
    color = c;
    at = ap (λ l. get_elem? l (length seen)) e ∙ get_elem?-middle seen c rest;
    least = subst (λ d. AtLeast d palette) (sym z) (AtLeast-zero palette);
  }

  nearest-Best :
      (rest palette seen : List Rgb) (best m : ℕ)
      → palette ≡ seen ++ rest
      → Best palette seen best m
      → IsNearest p palette (nearest p rest (length seen) best m)
  unfolding nearest
  nearest-Best [] palette seen best m e b = record {
    color = b.color;
    at = b.at;
    least =
        subst (λ d. AtLeast d palette) (sym b.is_min)
          (subst (λ l. AtLeast m l) (sym (e ∙ append-nil seen)) b.least);
  }
  nearest-Best (c ∷ rest) palette seen best m e b =
      let e' : palette ≡ (seen ++ c ∷ []) ++ rest = e ∙ sym (append_assoc seen (c ∷ []) rest) in
      let place : length (seen ++ c ∷ []) ≡ suc (length seen) =
        omega (arith, length-append seen (c ∷ [])) in
      elim (ℕ_discrete (dist p c) 0) [
        | yes z ↦
            subst (IsNearest p palette) (sym (nearest-found c rest (length seen) best m z))
              (found-IsNearest palette seen rest c e z)
        | no ne ↦ elim (dec_lt (dist p c) m) [
          | yes lt ↦
              subst (IsNearest p palette)
                (ap (λ i. nearest p rest i (length seen) (dist p c)) place
                  ∙ sym (nearest-less c rest (length seen) best m ne lt))
                (nearest-Best rest palette (seen ++ c ∷ []) (length seen) (dist p c) e' (record {
                  color = c;
                  at = ap (λ l. get_elem? l (length seen)) e ∙ get_elem?-middle seen c rest;
                  least =
                      AtLeast-append (dist p c) seen (c ∷ [])
                        (AtLeast-trans (dist p c) m seen (omega (arith, lt)) b.least)
                        (omega arith, tt);
                  is_min = refl;
                }))
          | no nlt ↦
              subst (IsNearest p palette)
                (ap (λ i. nearest p rest i best m) place
                  ∙ sym (nearest-not_less c rest (length seen) best m ne (omega (arith, nlt))))
                (nearest-Best rest palette (seen ++ c ∷ []) best m e' (record {
                  color = b.color;
                  at = b.at;
                  least = AtLeast-append m seen (c ∷ []) b.least (omega (arith, nlt), tt);
                  is_min = b.is_min;
                }))
        ]
      ]

  -- A pixel that is at least half opaque gets the register of a nearest colour of the palette, if the
  -- palette is not empty and the channels of the pixel and of the first colour are bytes.
  pub get_color_index-IsNearest :
      (c : Rgb) (palette : List Rgb)
      → IsPixel p
      → IsColor c
      → 128 ≤ p.alpha
      → (idx : ℕ) × (get_color_index (c ∷ palette) p ≡ some idx) × IsNearest p (c ∷ palette) idx
  unfolding get_color_index
  get_color_index-IsNearest c palette hp hc opaque = (
    nearest p (c ∷ palette) 0 0 (2 ^ 32 - 1),
    ground (arith, opaque),
    elim (ℕ_discrete (dist p c) 0) [
      | yes z ↦
          subst (IsNearest p (c ∷ palette)) (sym (nearest-found c palette 0 0 (2 ^ 32 - 1) z))
            (found-IsNearest (c ∷ palette) [] palette c refl z)
      | no ne ↦
          subst (IsNearest p (c ∷ palette))
            (sym (nearest-less c palette 0 0 (2 ^ 32 - 1) ne (dist-bound p c hp hc)))
            (nearest-Best palette (c ∷ palette) (c ∷ []) 0 (dist p c) refl
              (record { color = c; at = refl; least = (omega arith, tt); is_min = refl }))
    ],
  )

  gray-bound : IsPixel p → 216 + (p.red + p.green + p.blue) / 3 * 23 / 255 < 240
  gray-bound hp = omega (arith, hp.red, hp.green, hp.blue)

  cube-bound :
      IsPixel p
      → (p.red * 5 + 127) / 255 * 36 + (p.green * 5 + 127) / 255 * 6 + (p.blue * 5 + 127) / 255
        < 240
  cube-bound hp = omega (arith, hp.red, hp.green, hp.blue)

  -- Every pixel gets an index of the static palette, which has 240 registers, or none.
  static_color_index-bound : (idx : ℕ) → IsPixel p → static_color_index p ≡ some idx → idx < 240
  unfolding static_color_index
  static_color_index-bound idx hp e =
      let gray = gray-bound hp in let cube = cube-bound hp in ground (arith, e, gray, cube)
