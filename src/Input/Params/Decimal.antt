-- ===== src/Input/Params/Decimal.antt =====
-- Decimal numbers as terminals print them, and what `parse_uint` and `split` make of them.
use oxiterm.Common.{
  ℕ, zero, suc, ◌+◌, ◌-◌, ◌*◌, ◌/◌, ◌%◌, ◌^◌, ◌<◌, ◌≤◌, ◌≡◌, ◌≢◌, refl, ◌∙◌, ap, true, false,
  Option, none, some, List, [], ◌∷◌, ◌++◌, length, length-append, arith, All, All-append, ltb,
  dec_lt,
}
use native.Mathlib.Nat.{pow-suc}
use oxiterm.Input.Params.{split, parse_digits, parse_uint}

-- The digits of a number, most significant first; the fuel is at least the number.
decimal_at : ℕ → ℕ → List ℕ
decimal_at zero n = (48 + n % 10) ∷ []
decimal_at (suc fuel) n = elim (ltb n 10) [
  | true ↦ (48 + n % 10) ∷ []
  | false ↦ decimal_at fuel (n / 10) ++ (48 + n % 10) ∷ []
]

unfoldable pub decimal : ℕ → List ℕ
unfolding decimal_at
decimal n = decimal_at n n

abbrev pub IsDigit : ℕ → Type 0
IsDigit c = (48 ≤ c) × (c ≤ 57)

decimal_at-IsDigit : (fuel n : ℕ) → All IsDigit (decimal_at fuel n)
unfolding decimal_at
decimal_at-IsDigit zero n = ((omega arith, omega arith), tt)
decimal_at-IsDigit (suc fuel) n =
    elim (ltb n 10)
      as (λ b. All IsDigit (elim b as (λ _. List ℕ) [
        | true ↦ (48 + n % 10) ∷ []
        | false ↦ decimal_at fuel (n / 10) ++ (48 + n % 10) ∷ []
      ])) [
        | true ↦ ((omega arith, omega arith), tt)
        | false ↦
            All-append IsDigit (decimal_at fuel (n / 10)) ((48 + n % 10) ∷ [])
              (decimal_at-IsDigit fuel (n / 10)) ((omega arith, omega arith), tt)
      ]

pub decimal-IsDigit : (n : ℕ) → All IsDigit (decimal n)
unfolding decimal
decimal-IsDigit n = decimal_at-IsDigit n n

-- The loop over digits goes on from the value so far.
abbrev then_digits : ℕ → Option ℕ → List ℕ → Option ℕ
then_digits max none s = none
then_digits max (some v) s = parse_digits max v s

parse_digits-append :
    (max acc : ℕ) (xs ys : List ℕ)
    → parse_digits max acc (xs ++ ys) ≡ then_digits max (parse_digits max acc xs) ys
unfolding parse_digits
parse_digits-append max acc [] ys = refl
parse_digits-append max acc (c ∷ xs) ys =
    ground (arith, parse_digits-append max (acc * 10 + (c - 48)) xs ys)

decimal_at-small : (fuel n : ℕ) → n < 10 → decimal_at fuel n ≡ (48 + n) ∷ []
unfolding decimal_at
decimal_at-small zero n h = ground arith
decimal_at-small (suc fuel) n h = ground arith

decimal_at-large :
    (fuel n : ℕ) → 10 ≤ n → decimal_at (suc fuel) n ≡ decimal_at fuel (n / 10) ++ (48 + n % 10) ∷ []
unfolding decimal_at
decimal_at-large fuel n h = ground arith

parse_one :
    (max acc n : ℕ)
    → n < 10
    → acc * 10 + n ≤ max
    → parse_digits max acc ((48 + n) ∷ []) ≡ some (acc * 10 + n)
unfolding parse_digits
parse_one max acc n h le = ground arith

parse_digits-decimal :
    (fuel max n : ℕ) → n ≤ fuel → n ≤ max → parse_digits max 0 (decimal_at fuel n) ≡ some n
parse_digits-decimal zero max n h le =
    rw (decimal_at-small zero n (omega arith))
      (parse_one max 0 n (omega arith) (omega arith) ∙ ap some (omega arith))
parse_digits-decimal (suc fuel) max n h le = elim (dec_lt n 10) [
  | yes one ↦
      rw (decimal_at-small (suc fuel) n one)
        (parse_one max 0 n one (omega arith) ∙ ap some (omega arith))
  | no more ↦ rw (decimal_at-large fuel n (omega arith)) (
      parse_digits-append max 0 (decimal_at fuel (n / 10)) ((48 + n % 10) ∷ [])
      ∙ ap (λ r. then_digits max r ((48 + n % 10) ∷ []))
          (parse_digits-decimal fuel max (n / 10) (omega arith) (omega arith))
      ∙ parse_one max (n / 10) (n % 10) (omega arith) (omega arith)
      ∙ ap some (omega arith))
]

-- A text of digits has no sign.
parse_uint-digits :
    (max : ℕ) (s : List ℕ) → All IsDigit s → s ≢ [] → parse_uint max s ≡ parse_digits max 0 s
unfolding parse_uint
parse_uint-digits max [] h ne = absurd (ne refl)
parse_uint-digits max (c ∷ []) h ne = refl
parse_uint-digits max (c ∷ d ∷ s) h ne = ground arith

append-ne_nil : (xs : List ℕ) (y : ℕ) → xs ++ y ∷ [] ≢ []
append-ne_nil [] y = ground arith
append-ne_nil (x ∷ xs) y = ground arith

decimal-ne_nil : (n : ℕ) → decimal n ≢ []
unfolding decimal
decimal-ne_nil zero = rw (decimal_at-small zero zero (omega arith)) (ground arith)
decimal-ne_nil (suc n) = elim (dec_lt (suc n) 10) [
  | yes one ↦ rw (decimal_at-small (suc n) (suc n) one) (ground arith)
  | no more ↦
      rw (decimal_at-large n (suc n) (omega arith))
        (append-ne_nil (decimal_at n (suc n / 10)) (48 + suc n % 10))
]

-- A printed number within the bound parses to itself.
pub parse_uint-decimal : (max n : ℕ) → n ≤ max → parse_uint max (decimal n) ≡ some n
parse_uint-decimal max n le =
    parse_uint-digits max (decimal n) (decimal-IsDigit n) (decimal-ne_nil n)
    ∙ (unfold decimal in parse_digits-decimal n max n (omega arith) le)

-- Splitting at a separator that the first part does not hold.
pub split-last : (s : List ℕ) → All IsDigit s → split b';' s ≡ s ∷ []
unfolding split
split-last [] h = refl
split-last (c ∷ s) h = ground (arith, split-last s h.1)

pub split-append :
    (s rest : List ℕ) → All IsDigit s → split b';' (s ++ b';' ∷ rest) ≡ s ∷ split b';' rest
unfolding split
split-append [] rest h = refl
split-append (c ∷ s) rest h = ground (arith, split-append s rest h.1)

length-decimal_at : (k fuel n : ℕ) → n < 10 ^ suc k → n ≤ fuel → length (decimal_at fuel n) ≤ suc k
length-decimal_at k zero n lt le = rw (decimal_at-small zero n (omega arith)) (omega arith)
length-decimal_at zero (suc fuel) n lt le =
    rw (decimal_at-small (suc fuel) n (omega arith)) (omega arith)
length-decimal_at (suc k) (suc fuel) n lt le = elim (dec_lt n 10) [
  | yes one ↦ rw (decimal_at-small (suc fuel) n one) (omega arith)
  | no more ↦ rw (decimal_at-large fuel n (omega arith)) (
      omega (
        arith,
        length-append (decimal_at fuel (n / 10)) ((48 + n % 10) ∷ []),
        length-decimal_at k fuel (n / 10) (omega (arith, pow-suc 10 (suc k))) (omega arith),
      ))
]

-- A number below 100000 prints with at most five digits.
pub length-decimal : (n : ℕ) → n < 100000 → length (decimal n) ≤ 5
unfolding decimal
length-decimal n lt = length-decimal_at 4 n n lt (omega arith)

-- A printed number, read digit by digit.
pub parse_digits-decimal_lem : (n : ℕ) → parse_digits n 0 (decimal n) ≡ some n
unfolding decimal
parse_digits-decimal_lem n = parse_digits-decimal n n n (omega arith) (omega arith)
