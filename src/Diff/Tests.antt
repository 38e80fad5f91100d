-- ===== src/Diff/Tests.antt =====
-- Examples of diff.rs and unicode.rs.
use oxiterm.Common.{
  ℕ, is_char, ◌==◌, if◌then◌else◌, ◌≡◌, refl, true, false, Option, none, some, List, [], ◌∷◌, arith,
}
use oxiterm.Common.Outcome.{ok}
use oxiterm.Style.{true_color, color256}
use oxiterm.Unicode.{computed_width}
use oxiterm.Diff.{AnsiCommand, move_cursor, set_color, write_char, set_modifiers}
use oxiterm.Diff.Binary.{encode_command, encode_binary, decode_binary}
use oxiterm.Diff.Binary.RoundTrip.{decode_binary-encode_binary}
use oxiterm.Diff.Binary.Decoded.{Ends, decode_binary-Ends}

-- A stand-in for the width tables: the rocket is wide, line feed has no width, all else is narrow.
abbrev some_width : ℕ → Option ℕ
some_width c = if c == 0x1f680 then some 2 else if c == 10 then none else some 1

-- The commands of `test_binary_serialization`, and a wide character.
abbrev commands : List AnsiCommand
commands =
    move_cursor 12 34
    ∷ set_color (true_color 255 0 128) (color256 42)
    ∷ write_char 0x1f680
    ∷ set_modifiers true false true
    ∷ AnsiCommand.reset
    ∷ []

encoded :
    encode_binary some_width (move_cursor 258 1 ∷ write_char 0x1f680 ∷ [])
    ≡ 1 ∷ 2 ∷ 1 ∷ 1 ∷ 0 ∷ 3 ∷ 0x80 ∷ 0xf6 ∷ 1 ∷ 0 ∷ 2 ∷ []
unfolding encode_binary encode_command computed_width
encoded = refl

decode_binary-encode_binary_example :
    decode_binary (encode_binary some_width commands) ≡ some (ok commands)
decode_binary-encode_binary_example = decode_binary-encode_binary some_width commands (
  (omega arith, omega arith),
  (((omega arith, omega arith, omega arith), omega arith), (is_rocket, (tt, (tt, tt)))),
)
  where
    is_rocket : is_char 0x1f680 ≡ true
    is_rocket = unfold is_char in refl

-- A truncated cursor movement behind a reset.
decode_binary-Ends_example : Ends (decode_binary (5 ∷ 1 ∷ 12 ∷ 0 ∷ []))
decode_binary-Ends_example = decode_binary-Ends (5 ∷ 1 ∷ 12 ∷ 0 ∷ []) (omega arith)
