-- ===== src/Input/Utf8.antt =====
-- `std::str::from_utf8` and `String::from_utf8_lossy` of Rust's standard library, which the input
-- decoder calls: the strict UTF-8 automaton (no overlong forms, no surrogates, at most U+10FFFF).
pub mod RoundTrip
use oxiterm.Common.{
  ℕ, zero, suc, ◌+◌, ◌-◌, ◌*◌, ◌/◌, ◌%◌, Bool, ◌&&◌, List, [], ◌∷◌, ltb, leb, ◌==◌, if◌then◌else◌,
}

-- `tail lo hi left acc`: the next byte lies in `lo..=hi`, and `left` more continuation bytes follow.
pub data Utf8State : Type 0 where
  start : Utf8State
  tail : ℕ → ℕ → ℕ → ℕ → Utf8State

pub data Utf8Step : Type 0 where
  emits : ℕ → Utf8Step
  wants : Utf8State → Utf8Step
  bad : Utf8Step

abbrev pub in_range : ℕ → ℕ → ℕ → Bool
in_range lo hi b = leb lo b && leb b hi

lead_byte : ℕ → Utf8Step
lead_byte b =
    if ltb b 0x80
    then emits b
    else if in_range 0xc2 0xdf b
    then wants (tail 0x80 0xbf 0 (b - 0xc0))
    else if b == 0xe0
    then wants (tail 0xa0 0xbf 1 0)
    else if b == 0xed
    then wants (tail 0x80 0x9f 1 0xd)
    else if in_range 0xe1 0xef b
    then wants (tail 0x80 0xbf 1 (b - 0xe0))
    else if b == 0xf0
    then wants (tail 0x90 0xbf 2 0)
    else if in_range 0xf1 0xf3 b
    then wants (tail 0x80 0xbf 2 (b - 0xf0))
    else if b == 0xf4
    then wants (tail 0x80 0x8f 2 4)
    else bad

tail_byte : ℕ → ℕ → Utf8Step
tail_byte zero acc = emits acc
tail_byte (suc left) acc = wants (tail 0x80 0xbf left acc)

unfoldable pub utf8_byte : Utf8State → ℕ → Utf8Step
unfolding lead_byte tail_byte
utf8_byte start b = lead_byte b
utf8_byte (tail lo hi left acc) b =
    if in_range lo hi b then tail_byte left (acc * 64 + (b - 0x80)) else bad

-- `Ok(s)`, an error with `error_len() == Some(_)`, or one with `None`: the input ends too early.
pub data Utf8Result : Type 0 where
  valid : List ℕ → Utf8Result
  invalid truncated : Utf8Result

abbrev pub prepend : ℕ → Utf8Result → Utf8Result
prepend c (valid s) = valid (c ∷ s)
prepend c invalid = invalid
prepend c truncated = truncated

unfoldable pub from_utf8_at : Utf8State → List ℕ → Utf8Result
unfolding utf8_byte
from_utf8_at start [] = valid []
from_utf8_at (tail lo hi left acc) [] = truncated
from_utf8_at st (b ∷ bs) = elim (utf8_byte st b) [
  | emits c ↦ prepend c (from_utf8_at start bs)
  | wants st' ↦ from_utf8_at st' bs
  | bad ↦ invalid
]

unfoldable pub from_utf8 : List ℕ → Utf8Result
unfolding from_utf8_at
from_utf8 = from_utf8_at start

-- A sequence that breaks off is one U+FFFD, and the byte that breaks it is read anew.
unfoldable pub lossy_at : Utf8State → List ℕ → List ℕ
unfolding utf8_byte
lossy_at start [] = []
lossy_at (tail lo hi left acc) [] = 0xfffd ∷ []
lossy_at start (b ∷ bs) = elim (utf8_byte start b) [
  | emits c ↦ c ∷ lossy_at start bs
  | wants st' ↦ lossy_at st' bs
  | bad ↦ 0xfffd ∷ lossy_at start bs
]
lossy_at (tail lo hi left acc) (b ∷ bs) = elim (utf8_byte (tail lo hi left acc) b) [
  | emits c ↦ c ∷ lossy_at start bs
  | wants st' ↦ lossy_at st' bs
  | bad ↦ elim (utf8_byte start b) [
    | emits c ↦ 0xfffd ∷ c ∷ lossy_at start bs
    | wants st' ↦ 0xfffd ∷ lossy_at st' bs
    | bad ↦ 0xfffd ∷ 0xfffd ∷ lossy_at start bs
  ]
]

unfoldable pub from_utf8_lossy : List ℕ → List ℕ
unfolding lossy_at
from_utf8_lossy = lossy_at start

-- `char::encode_utf8`
unfoldable pub encode_utf8 : ℕ → List ℕ
encode_utf8 c =
    if ltb c 0x80
    then c ∷ []
    else if ltb c 0x800
    then (0xc0 + c / 64) ∷ (0x80 + c % 64) ∷ []
    else if ltb c 0x10000
    then (0xe0 + c / 4096) ∷ (0x80 + c / 64 % 64) ∷ (0x80 + c % 64) ∷ []
    else (0xf0 + c / 262144) ∷ (0x80 + c / 4096 % 64) ∷ (0x80 + c / 64 % 64) ∷ (0x80 + c % 64) ∷ []
