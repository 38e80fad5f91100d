-- ===== src/Diff/Binary.antt =====
-- `DiffEngine::encode_binary` and `DiffEngine::decode_binary` of diff.rs. A byte is a number
-- below 256, a `char` is its code point.
pub mod RoundTrip
pub mod Decoded
use oxiterm.Common.{
  ℕ, zero, suc, ◌+◌, ◌*◌, ◌/◌, ◌%◌, ◌^◌, ◌≡◌, Bool, true, false, not, ◌&&◌, ◌||◌, Option, none,
  some, List, [], ◌∷◌, ◌++◌, length, ltb, leb, is_char, has_bit, ◌==◌, if◌then◌else◌,
}
use oxiterm.Common.Outcome.{Result, ok, err, ◌>>=◌}
use oxiterm.Style.{AnsiColor, true_color, color256}
use oxiterm.Unicode.{computed_width}
use oxiterm.Diff.{AnsiCommand, move_cursor, set_color, write_char, set_modifiers}

-- `u16::to_le_bytes` and `u32::to_le_bytes`
pub le16 : ℕ → List ℕ
le16 x = (x % 256) ∷ (x / 256 % 256) ∷ []

pub le32 : ℕ → List ℕ
le32 x = (x % 256) ∷ (x / 256 % 256) ∷ (x / 65536 % 256) ∷ (x / 16777216 % 256) ∷ []

abbrev pub from_le16 : ℕ → ℕ → ℕ
from_le16 a b = a + b * 256

abbrev pub from_le32 : ℕ → ℕ → ℕ → ℕ → ℕ
from_le32 a b c d = a + b * 256 + c * 65536 + d * 16777216

pub encode_color_binary : AnsiColor → List ℕ
encode_color_binary AnsiColor.reset = 0 ∷ []
encode_color_binary (true_color r g b) = 1 ∷ r ∷ g ∷ b ∷ []
encode_color_binary (color256 idx) = 2 ∷ idx ∷ []

abbrev pub bit : Bool → ℕ → ℕ
bit b v = if b then v else 0

-- `flags |= 1`, `|= 2`, `|= 4` on distinct bits.
pub modifier_flags : Bool → Bool → Bool → ℕ
modifier_flags bold underline italic = bit bold 1 + bit underline 2 + bit italic 4

module _ (char_width : ℕ → Option ℕ) where
  unfoldable pub encode_command : AnsiCommand → List ℕ
  unfolding le16 le32 encode_color_binary modifier_flags
  encode_command (move_cursor x y) = 0x01 ∷ le16 x ++ le16 y
  encode_command (set_color fg bg) = 0x02 ∷ encode_color_binary fg ++ encode_color_binary bg
  encode_command (write_char ch) =
      let width = computed_width char_width ch in
      0x03 ∷ le32 ch ++ (if width == 0 then 1 else width) ∷ []
  encode_command (set_modifiers bold underline italic) =
      0x04 ∷ modifier_flags bold underline italic ∷ []
  encode_command AnsiCommand.reset = 0x05 ∷ []

  unfoldable pub encode_binary : List AnsiCommand → List ℕ
  encode_binary [] = []
  encode_binary (cmd ∷ cmds) = encode_command cmd ++ encode_binary cmds

-- The messages of the `Err` results.
pub data Side : Type 0 where
  fg_side bg_side : Side

pub data DecodeError : Type 0 where
  truncated_move_cursor truncated_write_char truncated_set_modifiers : DecodeError
  invalid_char_value invalid_tag : DecodeError
  truncated_type truncated_true_color truncated_color256 invalid_type : Side → DecodeError

-- What a decoding step returns: the value, and the bytes from the new index `i` on.
abbrev pub Parsed {ℓ} : Type ℓ → Type ℓ
Parsed A = Result DecodeError (A × List ℕ)

decode_true_color : Side → List ℕ → Parsed AnsiColor
decode_true_color side (r ∷ g ∷ b ∷ rest) = ok (true_color r g b, rest)
decode_true_color side _ = err (truncated_true_color side)

decode_color256 : Side → List ℕ → Parsed AnsiColor
decode_color256 side [] = err (truncated_color256 side)
decode_color256 side (idx ∷ rest) = ok (color256 idx, rest)

pub decode_color : Side → List ℕ → Parsed AnsiColor
unfolding decode_true_color decode_color256
decode_color side [] = err (truncated_type side)
decode_color side (kind ∷ rest) =
    if kind == 0
    then ok (AnsiColor.reset, rest)
    else if kind == 1
    then decode_true_color side rest
    else if kind == 2
    then decode_color256 side rest
    else err (invalid_type side)

decode_move_cursor : List ℕ → Parsed AnsiCommand
decode_move_cursor (a ∷ b ∷ c ∷ d ∷ rest) = ok (move_cursor (from_le16 a b) (from_le16 c d), rest)
decode_move_cursor _ = err truncated_move_cursor

decode_set_color : List ℕ → Parsed AnsiCommand
decode_set_color bytes = do
  (fg, rest) ← decode_color fg_side bytes
  (bg, rest') ← decode_color bg_side rest
  ok (set_color fg bg, rest')

decode_write_char : List ℕ → Parsed AnsiCommand
decode_write_char (a ∷ b ∷ c ∷ d ∷ width ∷ rest) =
    let val = from_le32 a b c d in
    if is_char val then ok (write_char val, rest) else err invalid_char_value
decode_write_char _ = err truncated_write_char

decode_set_modifiers : List ℕ → Parsed AnsiCommand
decode_set_modifiers [] = err truncated_set_modifiers
decode_set_modifiers (flags ∷ rest) =
    ok (set_modifiers (has_bit flags 1) (has_bit flags 2) (has_bit flags 4), rest)

-- One round of the loop: the bytes behind the tag.
pub decode_command : ℕ → List ℕ → Parsed AnsiCommand
unfolding decode_move_cursor decode_set_color decode_write_char decode_set_modifiers
decode_command tag rest =
    if tag == 0x01
    then decode_move_cursor rest
    else if tag == 0x02
    then decode_set_color rest
    else if tag == 0x03
    then decode_write_char rest
    else if tag == 0x04
    then decode_set_modifiers rest
    else if tag == 0x05
    then ok (AnsiCommand.reset, rest)
    else err invalid_tag

-- `while i < bytes.len()`, with fuel; `none` means that the fuel ran out.
pub decode_loop : ℕ → List ℕ → List AnsiCommand → Option (Result DecodeError (List AnsiCommand))
decode_loop fuel [] commands = some (ok commands)
decode_loop zero (tag ∷ bytes) commands = none
decode_loop (suc fuel) (tag ∷ bytes) commands = elim (decode_command tag bytes) [
  | err e ↦ some (err e)
  | ok (cmd, rest) ↦ decode_loop fuel rest (commands ++ cmd ∷ [])
]

-- Each round reads at least the tag, so the length is fuel enough.
pub decode_binary : List ℕ → Option (Result DecodeError (List AnsiCommand))
unfolding decode_loop
decode_binary bytes = decode_loop (length bytes) bytes []
