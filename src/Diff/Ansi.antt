-- ===== src/Diff/Ansi.antt =====
-- `DiffEngine::encode_ansi` of diff.rs: the drawing commands as escape sequences, in UTF-8.
use oxiterm.Common.{ℕ, ◌+◌, ◌%◌, ◌^◌, Bool, true, false, List, [], ◌∷◌, ◌++◌, if◌then◌else◌}
use oxiterm.Style.{AnsiColor, true_color, color256}
use oxiterm.Input.Utf8.{encode_utf8}
use oxiterm.Input.Params.Decimal.{decimal}
use oxiterm.Diff.{AnsiCommand, move_cursor, set_color, write_char, set_modifiers}
use oxiterm.Diff.Engine.{same_color}

-- ESC and `[`
abbrev csi : List ℕ → List ℕ
csi s = 0x1b ∷ b'[' ∷ s

encode_color : AnsiColor → Bool → List ℕ
unfolding decimal
encode_color color is_fg =
    let prefix = (if is_fg then b'3' else b'4') ∷ b'8' ∷ [] in
    elim color [
      | true_color r g b ↦ csi (
          prefix
          ++ b';'
            ∷ b'2'
            ∷ b';'
            ∷ (decimal r ++ b';' ∷ (decimal g ++ b';' ∷ (decimal b ++ b'm' ∷ []))))
      | color256 n ↦ csi (prefix ++ b';' ∷ b'5' ∷ b';' ∷ (decimal n ++ b'm' ∷ []))
      | AnsiColor.reset ↦ csi ((if is_fg then b'3' else b'4') ∷ b'9' ∷ b'm' ∷ [])
    ]

-- A modifier's sequence, if it is set.
abbrev modifier : Bool → ℕ → List ℕ
modifier on digit = if on then csi (digit ∷ b'm' ∷ []) else []

-- The loop, with `last_fg` and `last_bg`.
encode_ansi_from : AnsiColor → AnsiColor → List AnsiCommand → List ℕ
unfolding encode_color decimal encode_utf8
encode_ansi_from last_fg last_bg [] = []
encode_ansi_from last_fg last_bg (move_cursor x y ∷ cmds) =
    csi (decimal ((y + 1) % 2 ^ 16) ++ b';' ∷ (decimal ((x + 1) % 2 ^ 16) ++ b'H' ∷ []))
    ++ encode_ansi_from last_fg last_bg cmds
encode_ansi_from last_fg last_bg (set_color fg bg ∷ cmds) =
    (if same_color fg last_fg then [] else encode_color fg true)
    ++ ((if same_color bg last_bg then [] else encode_color bg false)
        ++ encode_ansi_from fg bg cmds)
encode_ansi_from last_fg last_bg (write_char ch ∷ cmds) =
    encode_utf8 ch ++ encode_ansi_from last_fg last_bg cmds
encode_ansi_from last_fg last_bg (set_modifiers bold underline italic ∷ cmds) =
    csi (b'0' ∷ b'm' ∷ [])
    ++ (encode_color last_fg true
        ++ (encode_color last_bg false
            ++ (modifier bold b'1'
                ++ (modifier underline b'4'
                    ++ (modifier italic b'3' ++ encode_ansi_from last_fg last_bg cmds)))))
encode_ansi_from last_fg last_bg (AnsiCommand.reset ∷ cmds) =
    csi (b'0' ∷ b'm' ∷ []) ++ encode_ansi_from AnsiColor.reset AnsiColor.reset cmds

pub encode_ansi : List AnsiCommand → List ℕ
unfolding encode_ansi_from
encode_ansi cmds = encode_ansi_from AnsiColor.reset AnsiColor.reset cmds
