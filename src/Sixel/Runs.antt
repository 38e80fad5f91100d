-- ===== src/Sixel/Runs.antt =====
-- A terminal that expands the repeats of a compressed row gets the row back.
use oxiterm.Common.{
  ℕ, zero, suc, ◌+◌, ◌-◌, ◌*◌, ◌≤◌, ◌≡◌, refl, ap, ◌∙◌, Bool, true, false, ◌&&◌, ◌==◌, leb, Option,
  none, some, List, [], ◌∷◌, ◌++◌, append_assoc, length, drop, replicate, All, arith, Bool-cases,
  inl, inr,
}
use oxiterm.Input.Params.{parse_digits}
use oxiterm.Input.Params.Decimal.{decimal, IsDigit, decimal-IsDigit, parse_digits-decimal_lem}
use oxiterm.Sixel.{run_length, packet, compress_from, sixel_rle_compress}

is_digit : ℕ → Bool
is_digit c = leb b'0' c && leb c b'9'

-- What a terminal makes of a row: `!`, a number and a character stand for that many of it. The
-- number is there while its digits are read.
unfoldable pub expand_from : Option ℕ → List ℕ → List ℕ
unfolding is_digit
expand_from number [] = []
expand_from none (c ∷ chars) = elim (c == b'!') [
  | true ↦ expand_from (some 0) chars
  | false ↦ c ∷ expand_from none chars
]
expand_from (some n) (c ∷ chars) = elim (is_digit c) [
  | true ↦ expand_from (some (n * 10 + (c - 48))) chars
  | false ↦ replicate n c ++ expand_from none chars
]

abbrev pub expand : List ℕ → List ℕ
expand chars = expand_from none chars

abbrev repeat : ℕ → List ℕ → List ℕ
repeat n chars = expand_from (some n) chars

-- The characters of a row, which hold six bits.
abbrev pub IsSixel : ℕ → Type 0
IsSixel c = (63 ≤ c) × (c ≤ 126)

digits_value : ℕ → List ℕ → ℕ
digits_value n [] = n
digits_value n (c ∷ ds) = digits_value (n * 10 + (c - 48)) ds

repeat-digits :
    (ds rest : List ℕ) (n : ℕ)
    → All IsDigit ds
    → repeat n (ds ++ rest) ≡ repeat (digits_value n ds) rest
unfolding digits_value expand_from is_digit
repeat-digits [] rest n h = refl
repeat-digits (c ∷ ds) rest n h = ground (arith, h.0, repeat-digits ds rest (n * 10 + (c - 48)) h.1)

parse-digits_value :
    (max : ℕ) (ds : List ℕ) (n v : ℕ) → parse_digits max n ds ≡ some v → digits_value n ds ≡ v
unfolding parse_digits digits_value
parse-digits_value max [] n v h = cc
parse-digits_value max (c ∷ ds) n v h =
    ground (arith, h, parse-digits_value max ds (n * 10 + (c - 48)) v)

digits_value-decimal : (n : ℕ) → digits_value 0 (decimal n) ≡ n
digits_value-decimal n = parse-digits_value n (decimal n) 0 n (parse_digits-decimal_lem n)

expand-sixel : (c : ℕ) (rest : List ℕ) → IsSixel c → expand (c ∷ rest) ≡ c ∷ expand rest
unfolding expand_from
expand-sixel c rest h = ground (arith, h.0)

repeat-sixel :
    (n c : ℕ) (rest : List ℕ) → IsSixel c → repeat n (c ∷ rest) ≡ replicate n c ++ expand rest
unfolding expand_from is_digit
repeat-sixel n c rest h = ground (arith, h.0)

expand-replicate :
    (n c : ℕ) (rest : List ℕ)
    → IsSixel c
    → expand (replicate n c ++ rest) ≡ replicate n c ++ expand rest
expand-replicate zero c rest h = refl
expand-replicate (suc n) c rest h =
    expand-sixel c (replicate n c ++ rest) h ∙ ap (λ l. c ∷ l) (expand-replicate n c rest h)

expand-repeat :
    (n c : ℕ) (rest : List ℕ)
    → IsSixel c
    → expand (b'!' ∷ decimal n ++ c ∷ rest) ≡ replicate n c ++ expand rest
unfolding expand_from
expand-repeat n c rest h =
    repeat-digits (decimal n) (c ∷ rest) 0 (decimal-IsDigit n)
    ∙ ap (λ m. repeat m (c ∷ rest)) (digits_value-decimal n)
    ∙ repeat-sixel n c rest h

expand-packet :
    (n c : ℕ) (rest : List ℕ)
    → IsSixel c
    → expand (packet n c ++ rest) ≡ replicate n c ++ expand rest
unfolding packet
expand-packet n c rest h = elim (Bool-cases (leb 3 n)) [
  | inl e ↦
      rw (packet, e)
        (ap (λ l. expand (b'!' ∷ l)) (append_assoc (decimal n) (c ∷ []) rest)
          ∙ expand-repeat n c rest h)
  | inr e ↦ rw (packet, e) (expand-replicate n c rest h)
]

-- The characters of a run and those behind it.
run-split :
    (c : ℕ) (chars : List ℕ)
    → replicate (run_length c chars) c ++ drop (run_length c chars) chars ≡ chars
unfolding run_length
run-split c [] = refl
run-split c (d ∷ chars) = ground (arith, run-split c chars)

drop-All : (n : ℕ) (chars : List ℕ) → All IsSixel chars → All IsSixel (drop n chars)
drop-All zero chars h = h
drop-All (suc n) [] h = h
drop-All (suc n) (c ∷ chars) h = drop-All n chars h.1

length-drop_le : (n : ℕ) (chars : List ℕ) → length (drop n chars) ≤ length chars
length-drop_le zero chars = omega arith
length-drop_le (suc n) [] = omega arith
length-drop_le (suc n) (c ∷ chars) = omega (arith, length-drop_le n chars)

expand-compress_from :
    (turns : ℕ) (chars : List ℕ)
    → All IsSixel chars
    → length chars ≤ turns
    → expand (compress_from turns chars) ≡ chars
unfolding compress_from expand_from
expand-compress_from zero [] h le = refl
expand-compress_from zero (c ∷ chars) h le = absurd (omega (arith, le))
expand-compress_from (suc turns) [] h le = refl
expand-compress_from (suc turns) (c ∷ chars) h le =
    let n = run_length c chars in
    expand-packet (suc n) c (compress_from turns (drop n chars)) h.0
    ∙ ap (λ l. replicate (suc n) c ++ l)
        (expand-compress_from turns (drop n chars) (drop-All n chars h.1)
          (omega (arith, length-drop_le n chars, le)))
    ∙ ap (λ l. c ∷ l) (run-split c chars)

-- A terminal that expands the repeats of a compressed row of sixel characters gets exactly the row.
pub expand-sixel_rle_compress :
    (chars : List ℕ) → All IsSixel chars → expand (sixel_rle_compress chars) ≡ chars
unfolding sixel_rle_compress
expand-sixel_rle_compress chars h = expand-compress_from (length chars) chars h (omega arith)
