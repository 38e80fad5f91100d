-- ===== src/Input/Decoder/Typing.antt =====
-- A typed character is one key event.
use oxiterm.Common.{
  ℕ, ◌+◌, ◌/◌, ◌%◌, ◌<◌, ◌≤◌, ◌≡◌, ◌≢◌, true, none, some, List, [], ◌∷◌, ◌++◌, arith, is_char,
  length, length-append,
}
use oxiterm.Input.Utf8.{from_utf8, valid, truncated}
use oxiterm.Input.Decoder.{idle, feed, utf8_push, Arrival, key}
use oxiterm.Input.Decoder.Steps.{machine}

-- ESC, XON and XOFF are no keys of their own.
abbrev pub IsTypable : ℕ → Type 0
IsTypable c = (is_char c ≡ true) × (c ≢ 0x1b) × (c ≢ 0x11) × (c ≢ 0x13)

-- A lead byte waits, a last byte completes the character.
pub feed_ascii :
    (c t : ℕ) (a : Arrival)
    → IsTypable c
    → c < 0x80
    → a.byte ≡ c
    → feed (machine idle [] [] t) a ≡ some (machine idle [] [] a.fed_at, some (key c))
unfolding feed
feed_ascii c t a h lt e = ground arith

module _ (u : List ℕ) (t : ℕ) (a : Arrival) where
  pub feed_pending :
      0xc2 ≤ a.byte
      → a.byte ≤ 0xf4
      → from_utf8 (a.byte ∷ []) ≡ truncated
      → feed (machine idle [] [] t) a ≡ some (machine idle [] (a.byte ∷ []) a.fed_at, none)
  unfolding feed utf8_push
  feed_pending lo hi h = ground arith

  pub feed_more :
      0x80 ≤ a.byte
      → from_utf8 (u ++ a.byte ∷ []) ≡ truncated
      → 0 < length u
      → length u < 3
      → feed (machine idle [] u t) a ≡ some (machine idle [] (u ++ a.byte ∷ []) a.fed_at, none)
  unfolding feed utf8_push
  feed_more lo h pos short = ground (arith, length-append u (a.byte ∷ []))

  pub feed_last :
      (c : ℕ)
      → 0x80 ≤ a.byte
      → from_utf8 (u ++ a.byte ∷ []) ≡ valid (c ∷ [])
      → 0 < length u
      → feed (machine idle [] u t) a ≡ some (machine idle [] [] a.fed_at, some (key c))
  unfolding feed utf8_push
  feed_last c lo h pos = ground arith

-- What the pending bytes of one character decode to, at each length.
module _ (c x : ℕ) where
  pub two_lead : 0x80 ≤ c → c < 0x800 → x ≡ 0xc0 + c / 64 → from_utf8 (x ∷ []) ≡ truncated
  unfolding from_utf8
  two_lead lo hi e = ground arith

  pub three_lead : 0x800 ≤ c → c < 0x10000 → x ≡ 0xe0 + c / 4096 → from_utf8 (x ∷ []) ≡ truncated
  unfolding from_utf8
  three_lead lo hi e = ground arith

  pub three_second :
      (y : ℕ)
      → 0x800 ≤ c
      → c < 0x10000
      → is_char c ≡ true
      → x ≡ 0xe0 + c / 4096
      → y ≡ 0x80 + c / 64 % 64
      → from_utf8 (x ∷ y ∷ []) ≡ truncated
  unfolding from_utf8 is_char
  three_second y lo hi h e f = ground arith

  pub four_lead :
      0x10000 ≤ c → is_char c ≡ true → x ≡ 0xf0 + c / 262144 → from_utf8 (x ∷ []) ≡ truncated
  unfolding from_utf8 is_char
  four_lead lo h e = ground arith

  pub four_second :
      (y : ℕ)
      → 0x10000 ≤ c
      → is_char c ≡ true
      → x ≡ 0xf0 + c / 262144
      → y ≡ 0x80 + c / 4096 % 64
      → from_utf8 (x ∷ y ∷ []) ≡ truncated
  unfolding from_utf8 is_char
  four_second y lo h e f = ground arith

  pub four_third :
      (y z : ℕ)
      → 0x10000 ≤ c
      → is_char c ≡ true
      → x ≡ 0xf0 + c / 262144
      → y ≡ 0x80 + c / 4096 % 64
      → z ≡ 0x80 + c / 64 % 64
      → from_utf8 (x ∷ y ∷ z ∷ []) ≡ truncated
  unfolding from_utf8 is_char
  four_third y z lo h e f g = ground arith
