-- ===== src/Diff/Binary/RoundTrip.antt =====
-- Decoding an encoded stream gives the commands back.
use oxiterm.Common.{
  ℕ, zero, suc, is_char, is_char-lt, ◌≡◌, ◌/◌, ◌%◌, ◌≤◌, ◌<◌, true, refl, Option, some, List, [],
  ◌∷◌, ◌++◌, arith, All, length, append-nil, append_assoc, length-append, ◌∙◌, ap,
}
use oxiterm.Common.Outcome.{ok}
use oxiterm.Style.{AnsiColor, true_color, color256, InRange}
use oxiterm.Diff.{AnsiCommand, move_cursor, set_color, write_char, set_modifiers}
use oxiterm.Diff.Binary.{
  encode_color_binary, encode_command, encode_binary, from_le32, Side, fg_side, bg_side,
  decode_color, decode_command, decode_loop, decode_binary,
}

-- The values that the Rust types hold: `u16` coordinates, `u8` channels and a `char`.
abbrev pub IsCommand : AnsiCommand → Type 0
IsCommand (move_cursor x y) = (x < 65536) × (y < 65536)
IsCommand (set_color fg bg) = InRange fg × InRange bg
IsCommand (write_char ch) = is_char ch ≡ true
IsCommand (set_modifiers bold underline italic) = Unit
IsCommand AnsiCommand.reset = Unit

decode_color-encode :
    (side : Side) (c : AnsiColor) (rest : List ℕ)
    → decode_color side (encode_color_binary c ++ rest) ≡ ok (c, rest)
unfolding decode_color encode_color_binary
decode_color-encode side (true_color r g b) rest = refl
decode_color-encode side (color256 n) rest = refl
decode_color-encode side AnsiColor.reset rest = refl

from_le32-le32 :
    (ch : ℕ)
    → is_char ch ≡ true
    → from_le32 (ch % 256) (ch / 256 % 256) (ch / 65536 % 256) (ch / 16777216 % 256) ≡ ch
from_le32-le32 ch h = omega (arith, is_char-lt ch h)

module _ (char_width : ℕ → Option ℕ) where
  -- One round of the loop reads one encoded command.
  loop_step :
      (cmd : AnsiCommand) (fuel : ℕ) (rest : List ℕ) (acc : List AnsiCommand)
      → IsCommand cmd
      → decode_loop (suc fuel) (encode_command char_width cmd ++ rest) acc
        ≡ decode_loop fuel rest (acc ++ cmd ∷ [])
  unfolding decode_loop encode_command decode_command
  loop_step (move_cursor x y) fuel rest acc h = ground arith
  loop_step (set_color fg bg) fuel rest acc h = rw append_assoc (
      ground (
        arith,
        decode_color-encode fg_side fg (encode_color_binary bg ++ rest),
        decode_color-encode bg_side bg rest,
      ))
  loop_step (write_char ch) fuel rest acc h = ground (arith, from_le32-le32 ch h)
  loop_step (set_modifiers bold underline italic) fuel rest acc h = ground arith
  loop_step AnsiCommand.reset fuel rest acc h = refl

  encode_command-ne : (cmd : AnsiCommand) → 0 < length (encode_command char_width cmd)
  unfolding encode_command
  encode_command-ne (move_cursor x y) = omega arith
  encode_command-ne (set_color fg bg) = omega arith
  encode_command-ne (write_char ch) = omega arith
  encode_command-ne (set_modifiers bold underline italic) = omega arith
  encode_command-ne AnsiCommand.reset = omega arith

  decode_loop-encode :
      (cmds : List AnsiCommand) (fuel : ℕ) (acc : List AnsiCommand)
      → All IsCommand cmds
      → length (encode_binary char_width cmds) ≤ fuel
      → decode_loop fuel (encode_binary char_width cmds) acc ≡ some (ok (acc ++ cmds))
  unfolding decode_loop encode_binary
  decode_loop-encode [] fuel acc h enough = rw append-nil
  decode_loop-encode (cmd ∷ cmds) zero acc h enough = absurd (
      omega (
        arith,
        encode_command-ne cmd,
        length-append (encode_command char_width cmd) (encode_binary char_width cmds),
      ))
  decode_loop-encode (cmd ∷ cmds) (suc fuel) acc h enough =
      loop_step cmd fuel (encode_binary char_width cmds) acc h.0
      ∙ decode_loop-encode cmds fuel (acc ++ cmd ∷ []) h.1 (
          omega (
            arith,
            encode_command-ne cmd,
            length-append (encode_command char_width cmd) (encode_binary char_width cmds),
          ))
      ∙ ap (λ l. some (ok l)) (append_assoc acc (cmd ∷ []) cmds)

  -- Decoding what was encoded gives the commands back, in order and without an error, for all
  -- commands whose coordinates, channels and characters are in the ranges of their types.
  pub decode_binary-encode_binary :
      (cmds : List AnsiCommand)
      → All IsCommand cmds
      → decode_binary (encode_binary char_width cmds) ≡ some (ok cmds)
  unfolding decode_binary
  decode_binary-encode_binary cmds h =
      decode_loop-encode cmds (length (encode_binary char_width cmds)) [] h (omega arith)
