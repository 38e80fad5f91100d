-- ===== src/Input/Utf8/RoundTrip.antt =====
-- What `encode_utf8` writes, `from_utf8` reads back.
use oxiterm.Common.{
  ℕ, ◌+◌, ◌/◌, ◌%◌, ◌<◌, ◌≤◌, ◌≡◌, refl, ◌∙◌, ap, true, List, [], ◌∷◌, ◌++◌, arith, All, dec_lt,
  is_char,
}
use oxiterm.Input.Utf8.{start, from_utf8_at, from_utf8, valid, prepend, encode_utf8}

-- The four lengths of an encoding.
module _ (c : ℕ) where
  pub encode_one : c < 0x80 → encode_utf8 c ≡ c ∷ []
  unfolding encode_utf8
  encode_one h = ground arith

  pub encode_two : 0x80 ≤ c → c < 0x800 → encode_utf8 c ≡ (0xc0 + c / 64) ∷ (0x80 + c % 64) ∷ []
  unfolding encode_utf8
  encode_two lo hi = ground arith

  pub encode_three :
      0x800 ≤ c
      → c < 0x10000
      → encode_utf8 c ≡ (0xe0 + c / 4096) ∷ (0x80 + c / 64 % 64) ∷ (0x80 + c % 64) ∷ []
  unfolding encode_utf8
  encode_three lo hi = ground arith

  pub encode_four :
      0x10000 ≤ c
      → encode_utf8 c
        ≡ (0xf0 + c / 262144) ∷ (0x80 + c / 4096 % 64) ∷ (0x80 + c / 64 % 64) ∷ (0x80 + c % 64) ∷ []
  unfolding encode_utf8
  encode_four lo = ground arith

module _ (c : ℕ) (rest : List ℕ) where
  one_byte : c < 0x80 → from_utf8_at start (c ∷ rest) ≡ prepend c (from_utf8_at start rest)
  unfolding from_utf8_at
  one_byte h = ground arith

  two_bytes :
      0x80 ≤ c
      → c < 0x800
      → from_utf8_at start ((0xc0 + c / 64) ∷ (0x80 + c % 64) ∷ rest)
        ≡ prepend c (from_utf8_at start rest)
  unfolding from_utf8_at
  two_bytes lo hi = ground arith

  three_bytes :
      0x800 ≤ c
      → c < 0x10000
      → is_char c ≡ true
      → from_utf8_at start ((0xe0 + c / 4096) ∷ (0x80 + c / 64 % 64) ∷ (0x80 + c % 64) ∷ rest)
        ≡ prepend c (from_utf8_at start rest)
  unfolding from_utf8_at is_char
  three_bytes lo hi h = ground arith

  four_bytes :
      0x10000 ≤ c
      → is_char c ≡ true
      → from_utf8_at start (
          (0xf0 + c / 262144)
          ∷ (0x80 + c / 4096 % 64)
          ∷ (0x80 + c / 64 % 64)
          ∷ (0x80 + c % 64)
          ∷ rest)
        ≡ prepend c (from_utf8_at start rest)
  unfolding from_utf8_at is_char
  four_bytes lo h = ground arith

  pub from_utf8_at-encode :
      is_char c ≡ true
      → from_utf8_at start (encode_utf8 c ++ rest) ≡ prepend c (from_utf8_at start rest)
  from_utf8_at-encode h = elim (dec_lt c 0x80) [
    | yes one ↦ rw (encode_one c one) (one_byte one)
    | no more ↦ elim (dec_lt c 0x800) [
      | yes two ↦ rw (encode_two c (omega arith) two) (two_bytes (omega arith) two)
      | no more' ↦ elim (dec_lt c 0x10000) [
        | yes three ↦ rw (encode_three c (omega arith) three) (three_bytes (omega arith) three h)
        | no four ↦ rw (encode_four c (omega arith)) (four_bytes (omega arith) h)
      ]
    ]
  ]

-- The bytes of a text.
abbrev pub encode_text : List ℕ → List ℕ
encode_text [] = []
encode_text (c ∷ s) = encode_utf8 c ++ encode_text s

-- A text of Unicode scalar values, encoded character by character, decodes to itself.
pub from_utf8-encode_text :
    (s : List ℕ) → All (λ c. is_char c ≡ true) s → from_utf8 (encode_text s) ≡ valid s
unfolding from_utf8
from_utf8-encode_text [] h = refl
from_utf8-encode_text (c ∷ s) h =
    from_utf8_at-encode c (encode_text s) h.0 ∙ ap (prepend c) (from_utf8-encode_text s h.1)
