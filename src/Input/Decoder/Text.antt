-- ===== src/Input/Decoder/Text.antt =====
-- A typed text is its characters' key events, in order.
use oxiterm.Common.{
  ℕ, ◌+◌, ◌/◌, ◌%◌, ◌<◌, ◌≤◌, ◌≡◌, refl, sym, ◌∙◌, ap, ap₂, true, some, List, [], ◌∷◌, ◌++◌,
  append-nil, append_assoc, arith, All, dec_lt, is_char-lt, is_char,
}
use oxiterm.Input.{InputEvent}
use oxiterm.Input.Utf8.{encode_utf8, from_utf8, valid}
use oxiterm.Input.Utf8.RoundTrip.{
  encode_one, encode_two, encode_three, encode_four, encode_text, from_utf8-encode_text,
}
use oxiterm.Input.Decoder.{idle, feed_onto, feed_slice, Arrival, fresh, key}
use oxiterm.Input.Decoder.Steps.{machine, last_fed, bytes}
use oxiterm.Input.Decoder.Typing.{
  IsTypable, feed_ascii, feed_pending, feed_more, feed_last, two_lead, three_lead, three_second,
  four_lead, four_second, four_third,
}

-- The arrivals begin with the character `c`, whose key is the next event, and go on with `l`.
record Typed (c t : ℕ) (events : List InputEvent) (arrivals : List Arrival) (l : List ℕ)
    : Type 0 where
  rest : List Arrival
  time : ℕ
  left : bytes rest ≡ l
  same_end : last_fed t arrivals ≡ last_fed time rest
  fed :
      feed_onto (machine idle [] [] t) events arrivals
      ≡ feed_onto (machine idle [] [] time) (events ++ key c ∷ []) rest

whole : (c : ℕ) → is_char c ≡ true → from_utf8 (encode_utf8 c) ≡ valid (c ∷ [])
whole c h = ap from_utf8 (sym (append-nil (encode_utf8 c))) ∙ from_utf8-encode_text (c ∷ []) (h, tt)

module _ (c t : ℕ) (events : List InputEvent) (l : List ℕ) (h : IsTypable c) where
  one_byte-Typed :
      c < 0x80 → (arrivals : List Arrival) → bytes arrivals ≡ c ∷ l → Typed c t events arrivals l
  unfolding feed_onto
  one_byte-Typed lt [] e = cc
  one_byte-Typed lt (a ∷ rest) e = record {
    rest = rest;
    time = a.fed_at;
    left = cc;
    same_end = refl;
    fed = rw (feed_ascii c t a h lt (cc), feed_onto);
  }

  two_bytes-Typed :
      0x80 ≤ c
      → c < 0x800
      → from_utf8 ((0xc0 + c / 64) ∷ (0x80 + c % 64) ∷ []) ≡ valid (c ∷ [])
      → (arrivals : List Arrival) → bytes arrivals ≡ (0xc0 + c / 64) ∷ (0x80 + c % 64) ∷ l
      → Typed c t events arrivals l
  unfolding feed_onto
  two_bytes-Typed lo hi v [] e = cc
  two_bytes-Typed lo hi v (a ∷ []) e = cc
  two_bytes-Typed lo hi v (a ∷ b ∷ rest) e =
      let ea : a.byte ≡ 0xc0 + c / 64 = cc in
      let eb : b.byte ≡ 0x80 + c % 64 = cc in
      record {
        rest = rest;
        time = b.fed_at;
        left = cc;
        same_end = refl;
        fed =
            rw
              (
                feed_pending [] t a (omega arith) (omega arith) (two_lead c a.byte lo hi ea),
                feed_onto,
              )
              (rw (
                feed_last (a.byte ∷ []) a.fed_at b c (omega arith) (rw (ea, eb) v) (omega arith),
                feed_onto,
              ));
      }

  three_bytes-Typed :
      0x800 ≤ c
      → c < 0x10000
      → from_utf8 ((0xe0 + c / 4096) ∷ (0x80 + c / 64 % 64) ∷ (0x80 + c % 64) ∷ []) ≡ valid (c ∷ [])
      → (arrivals : List Arrival)
      → bytes arrivals ≡ (0xe0 + c / 4096) ∷ (0x80 + c / 64 % 64) ∷ (0x80 + c % 64) ∷ l
      → Typed c t events arrivals l
  unfolding feed_onto
  three_bytes-Typed lo hi v [] e = cc
  three_bytes-Typed lo hi v (a ∷ []) e = cc
  three_bytes-Typed lo hi v (a ∷ b ∷ []) e = cc
  three_bytes-Typed lo hi v (a ∷ b ∷ d ∷ rest) e =
      let ea : a.byte ≡ 0xe0 + c / 4096 = cc in
      let eb : b.byte ≡ 0x80 + c / 64 % 64 = cc in
      let ed : d.byte ≡ 0x80 + c % 64 = cc in
      record {
        rest = rest;
        time = d.fed_at;
        left = cc;
        same_end = refl;
        fed =
            rw
              (
                feed_pending [] t a (omega arith) (omega arith) (three_lead c a.byte lo hi ea),
                feed_onto,
              )
              (rw
                (
                  feed_more (a.byte ∷ []) a.fed_at b (omega arith)
                      (three_second c a.byte b.byte lo hi h.0 ea eb) (omega arith) (omega arith),
                  feed_onto,
                )
                (rw (
                  feed_last (a.byte ∷ b.byte ∷ []) b.fed_at d c (omega arith) (rw (ea, eb, ed) v)
                      (omega arith),
                  feed_onto,
                )));
      }

  four_bytes-Typed :
      0x10000 ≤ c
      → c < 0x110000
      → from_utf8 (
          (0xf0 + c / 262144)
          ∷ (0x80 + c / 4096 % 64)
          ∷ (0x80 + c / 64 % 64)
          ∷ (0x80 + c % 64)
          ∷ [])
        ≡ valid (c ∷ [])
      → (arrivals : List Arrival)
      → bytes arrivals
        ≡ (0xf0 + c / 262144) ∷ (0x80 + c / 4096 % 64) ∷ (0x80 + c / 64 % 64) ∷ (0x80 + c % 64) ∷ l
      → Typed c t events arrivals l
  unfolding feed_onto
  four_bytes-Typed lo hi v [] e = cc
  four_bytes-Typed lo hi v (a ∷ []) e = cc
  four_bytes-Typed lo hi v (a ∷ b ∷ []) e = cc
  four_bytes-Typed lo hi v (a ∷ b ∷ d ∷ []) e = cc
  four_bytes-Typed lo hi v (a ∷ b ∷ d ∷ g ∷ rest) e =
      let ea : a.byte ≡ 0xf0 + c / 262144 = cc in
      let eb : b.byte ≡ 0x80 + c / 4096 % 64 = cc in
      let ed : d.byte ≡ 0x80 + c / 64 % 64 = cc in
      let eg : g.byte ≡ 0x80 + c % 64 = cc in
      record {
        rest = rest;
        time = g.fed_at;
        left = cc;
        same_end = refl;
        fed =
            rw
              (
                feed_pending [] t a (omega arith) (omega arith) (four_lead c a.byte lo h.0 ea),
                feed_onto,
              )
              (rw
                (
                  feed_more (a.byte ∷ []) a.fed_at b (omega arith)
                      (four_second c a.byte b.byte lo h.0 ea eb) (omega arith) (omega arith),
                  feed_onto,
                )
                (rw
                  (
                    feed_more (a.byte ∷ b.byte ∷ []) b.fed_at d (omega arith)
                        (four_third c a.byte b.byte d.byte lo h.0 ea eb ed) (omega arith)
                        (omega arith),
                    feed_onto,
                  )
                  (rw (
                    feed_last (a.byte ∷ b.byte ∷ d.byte ∷ []) d.fed_at g c (omega arith)
                        (rw (ea, eb, ed, eg) v) (omega arith),
                    feed_onto,
                  ))));
      }

  char-Typed :
      (arrivals : List Arrival) → bytes arrivals ≡ encode_utf8 c ++ l → Typed c t events arrivals l
  char-Typed arrivals = elim (dec_lt c 0x80) [
    | yes one ↦ rw (encode_one c one) (one_byte-Typed one arrivals)
    | no more ↦ elim (dec_lt c 0x800) [
      | yes two ↦
          let e = encode_two c (omega arith) two in
          rw e (two_bytes-Typed (omega arith) two (rw e at (whole c h.0)) arrivals)
      | no more' ↦ elim (dec_lt c 0x10000) [
        | yes three ↦
            let e = encode_three c (omega arith) three in
            rw e (three_bytes-Typed (omega arith) three (rw e at (whole c h.0)) arrivals)
        | no four ↦
            let e = encode_four c (omega arith) in
            rw e
              (four_bytes-Typed (omega arith) (is_char-lt c h.0) (rw e at (whole c h.0)) arrivals)
      ]
    ]
  ]

abbrev pub keys : List ℕ → List InputEvent
keys [] = []
keys (c ∷ s) = key c ∷ keys s

feed_onto-text :
    (s : List ℕ) (t : ℕ) (events : List InputEvent) (arrivals : List Arrival)
    → All IsTypable s
    → bytes arrivals ≡ encode_text s
    → feed_onto (machine idle [] [] t) events arrivals
      ≡ some (machine idle [] [] (last_fed t arrivals), events ++ keys s)
unfolding feed_onto
feed_onto-text [] t events [] h e = rw append-nil
feed_onto-text [] t events (a ∷ arrivals) h e = cc
feed_onto-text (c ∷ s) t events arrivals h e =
    let typed = char-Typed c t events (encode_text s) h.0 arrivals e in
    typed.fed
    ∙ feed_onto-text s typed.time (events ++ key c ∷ []) typed.rest h.1 typed.left
    ∙ ap₂ (λ last evs. some (machine idle [] [] last, evs)) (sym typed.same_end)
        (append_assoc events (key c ∷ []) (keys s))

-- A new machine that is fed the UTF-8 bytes of a text, at whatever times, returns one key press for
-- each character, in order, and is as new behind it. The text holds any Unicode scalar values but
-- ESC, XON and XOFF.
pub feed_slice-text :
    (s : List ℕ) (t : ℕ) (arrivals : List Arrival)
    → All IsTypable s
    → bytes arrivals ≡ encode_text s
    → feed_slice (fresh t) arrivals ≡ some (fresh (last_fed t arrivals), keys s)
unfolding feed_slice
feed_slice-text s t arrivals = feed_onto-text s t [] arrivals
