-- ===== src/Input/Decoder/Tests.antt =====
-- Examples of decoder.rs.
use oxiterm.Common.{ℕ, suc, ◌+◌, ◌≤◌, ◌≡◌, refl, true, some, List, [], ◌∷◌, ◌++◌, arith, is_char}
use oxiterm.Input.{no_modifiers, MouseInput, MouseButton, MouseAction, set_app_token}
use oxiterm.Input.Utf8.{encode_utf8}
use oxiterm.Input.Decoder.{InputStateMachine, csi, key, feed, feed_slice, fresh, Arrival}
use oxiterm.Input.Decoder.Steps.{machine}
use oxiterm.Input.Decoder.Valid.{IsValid, AllSound, feed_slice-AllSound}
use oxiterm.Input.Decoder.Text.{feed_slice-text}
use oxiterm.Input.Decoder.Recovery.{StaysBusy-bound, feed-stale}

-- A byte at a time, which both readings of the clock show.
abbrev at : ℕ → ℕ → Arrival
at t byte = record { byte = byte; checked_at = t; fed_at = t }

-- Bytes that come one nanosecond after the other.
abbrev stream : ℕ → List ℕ → List Arrival
stream t [] = []
stream t (b ∷ bs) = at t b ∷ stream (suc t) bs

-- `test_t9_apc_app_token_decodes`, with the token `ab` and an invalid byte.
token :
    feed_slice (fresh 0) (stream 1 (0x1b ∷ b'_' ∷ b'A' ∷ b'a' ∷ 0xff ∷ b'b' ∷ 0x1b ∷ b'\\' ∷ []))
    ≡ some (fresh 8, set_app_token (b'a' ∷ 0xfffd ∷ b'b' ∷ []) ∷ [])
unfolding feed_slice
token = refl

-- The rest of an overlong sequence is read as keys.
late_byte :
    feed_slice (fresh 0) (stream 1 (0x1b ∷ b'[' ∷ []) ++ at 300000000 b'a' ∷ [])
    ≡ some (fresh 300000000, key b'a' ∷ [])
unfolding feed_slice
late_byte = refl

feed_slice-AllSound_example :
    AllSound (feed_slice (fresh 0) (stream 1 (0xc5 ∷ 0x1b ∷ b'[' ∷ b'c' ∷ [])))
feed_slice-AllSound_example = feed_slice-AllSound 0 (stream 1 (0xc5 ∷ 0x1b ∷ b'[' ∷ b'c' ∷ []))

-- "ał€" and a rocket.
abbrev typed : List ℕ
typed = b'a' ∷ 0x142 ∷ 0x20ac ∷ 0x1f680 ∷ []

abbrev typed_bytes : List ℕ
typed_bytes = b'a' ∷ 0xc5 ∷ 0x82 ∷ 0xe2 ∷ 0x82 ∷ 0xac ∷ 0xf0 ∷ 0x9f ∷ 0x9a ∷ 0x80 ∷ []

feed_slice-text_example :
    feed_slice (fresh 0) (stream 1 typed_bytes)
    ≡ some (fresh 10, key b'a' ∷ key 0x142 ∷ key 0x20ac ∷ key 0x1f680 ∷ [])
unfolding is_char encode_utf8
feed_slice-text_example =
    feed_slice-text typed 0 (stream 1 typed_bytes)
      (
        (refl, omega arith, omega arith, omega arith),
        (
          (refl, omega arith, omega arith, omega arith),
          (
            (refl, omega arith, omega arith, omega arith),
            ((refl, omega arith, omega arith, omega arith), tt),
          ),
        ),
      )
      refl

-- Control and the right button, released at column 12 of row 7.
abbrev click : MouseInput
click = record {
  col = 12;
  row = 7;
  button = MouseButton.right;
  action = MouseAction.release;
  modifiers = record no_modifiers { ctrl = true };
}

abbrev click_bytes : List ℕ
click_bytes = b'[' ∷ b'<' ∷ b'1' ∷ b'8' ∷ b';' ∷ b'1' ∷ b'2' ∷ b';' ∷ b'7' ∷ b'm' ∷ []

-- In the middle of a control sequence.
abbrev busy : InputStateMachine
busy = machine csi (0x1b ∷ b'[' ∷ b'1' ∷ []) [] 3

busy-IsValid : IsValid busy
busy-IsValid = record {
  capacity = refl;
  bounded = omega arith;
  utf8_bounded = omega arith;
  holds = refl;
}

StaysBusy-bound_example : 3 + 2 ≤ 256
unfolding feed
StaysBusy-bound_example =
    StaysBusy-bound (stream 4 (b'2' ∷ b';' ∷ [])) busy busy-IsValid (omega arith) (refl, (refl, tt))

feed-stale_example : feed busy (at 200000004 b'A') ≡ feed (fresh 3) (at 200000004 b'A')
feed-stale_example = feed-stale busy (at 200000004 b'A') busy-IsValid refl (omega arith)
