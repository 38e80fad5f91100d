-- ===== src/Diff/Binary/Decoded.antt =====
-- Decoding an arbitrary stream: the loop ends, and what it returns is in the ranges of the types.
use oxiterm.Common.{
  ℕ, Option, Bool, true, false, if◌then◌else◌, ◌==◌, zero, suc, ◌≤◌, ◌<◌, some, none, List, [], ◌∷◌,
  ◌++◌, arith, All, All-append, length,
}
use oxiterm.Common.Outcome.{Result, ok, err, ◌>>=◌}
use oxiterm.Style.{InRange}
use oxiterm.Diff.{AnsiCommand}
use oxiterm.Diff.Binary.{
  Side, fg_side, bg_side, invalid_tag, decode_color, decode_move_cursor, decode_set_color,
  decode_write_char, decode_set_modifiers, decode_command, decode_loop, decode_binary, Parsed,
  DecodeError,
}
use oxiterm.Diff.Binary.RoundTrip.{IsCommand}

abbrev pub IsByte : ℕ → Type 0
IsByte b = b < 256

-- A step that succeeds reads forward and returns a value in range.
abbrev Reads {ℓ} : {A : Type ℓ} → (A → Type 0) → List ℕ → Parsed A → Type 0
Reads P bytes (err e) = Unit
Reads P bytes (ok (a, rest)) =
    (All IsByte bytes → P a × All IsByte rest) × (length rest ≤ length bytes)

decode_color-Reads : (side : Side) (bytes : List ℕ) → Reads InRange bytes (decode_color side bytes)
unfolding decode_color
decode_color-Reads side [] = tt
decode_color-Reads side (k ∷ []) = ground arith
decode_color-Reads side (k ∷ a ∷ []) = ground arith
decode_color-Reads side (k ∷ a ∷ b ∷ []) = ground arith
decode_color-Reads side (k ∷ a ∷ b ∷ c ∷ rest) = ground arith

decode_move_cursor-Reads : (bytes : List ℕ) → Reads IsCommand bytes (decode_move_cursor bytes)
unfolding decode_move_cursor
decode_move_cursor-Reads (a ∷ b ∷ c ∷ d ∷ rest) = ((λ h. ground arith), ground arith)
decode_move_cursor-Reads _ = tt

decode_write_char-Reads : (bytes : List ℕ) → Reads IsCommand bytes (decode_write_char bytes)
unfolding decode_write_char
decode_write_char-Reads (a ∷ b ∷ c ∷ d ∷ w ∷ rest) = ground arith
decode_write_char-Reads _ = tt

decode_set_modifiers-Reads : (bytes : List ℕ) → Reads IsCommand bytes (decode_set_modifiers bytes)
unfolding decode_set_modifiers
decode_set_modifiers-Reads [] = tt
decode_set_modifiers-Reads (flags ∷ rest) = ground arith

Reads-weaken :
    {A : Type 0} (P : Type 0) (Q : A → Type 0) (bytes rest : List ℕ) (r : Parsed A)
    → (All IsByte bytes → P × All IsByte rest)
    → length rest ≤ length bytes
    → Reads (λ a. P → Q a) rest r
    → Reads Q bytes r
Reads-weaken P Q bytes rest (err e) h le g = tt
Reads-weaken P Q bytes rest (ok (a, rest')) h le g =
    ((λ k. ((g.0 (h k).1).0 (h k).0, (g.0 (h k).1).1)), omega arith)

Reads-bind :
    {A B : Type 0} (P : A → Type 0) (Q : B → Type 0) (bytes : List ℕ) (m : Parsed A)
    (f : A × List ℕ → Parsed B)
    → Reads P bytes m
    → ((a : A) (rest : List ℕ) → Reads (λ b. P a → Q b) rest (f (a, rest)))
    → Reads Q bytes (m >>= f)
Reads-bind P Q bytes (err e) f h g = tt
Reads-bind P Q bytes (ok (a, rest)) f h g =
    Reads-weaken (P a) Q bytes rest (f (a, rest)) h.0 h.1 (g a rest)

Reads-if :
    {A : Type 0} (P : A → Type 0) (bytes : List ℕ) (b : Bool) (x y : Parsed A)
    → Reads P bytes x
    → Reads P bytes y
    → Reads P bytes (if b then x else y)
Reads-if P bytes true x y h k = h
Reads-if P bytes false x y h k = k

decode_set_color-Reads : (bytes : List ℕ) → Reads IsCommand bytes (decode_set_color bytes)
unfolding decode_set_color
decode_set_color-Reads bytes =
    Reads-bind InRange IsCommand bytes (decode_color fg_side bytes) _
      (decode_color-Reads fg_side bytes)
      λ fg rest.
        Reads-bind InRange (λ c. InRange fg → IsCommand c) rest (decode_color bg_side rest) _
          (decode_color-Reads bg_side rest) λ bg rest'. ((λ h. ((λ b f. (f, b)), h)), omega arith)

decode_command-Reads : (tag : ℕ) (bytes : List ℕ) → Reads IsCommand bytes (decode_command tag bytes)
unfolding decode_command
decode_command-Reads tag bytes =
    Reads-if IsCommand bytes (tag == 0x01) _ _ (decode_move_cursor-Reads bytes) (
      Reads-if IsCommand bytes (tag == 0x02) _ _ (decode_set_color-Reads bytes) (
        Reads-if IsCommand bytes (tag == 0x03) _ _ (decode_write_char-Reads bytes) (
          Reads-if IsCommand bytes (tag == 0x04) _ _ (decode_set_modifiers-Reads bytes) (
            Reads-if IsCommand bytes (tag == 0x05) _ (err invalid_tag) ((λ h. (tt, h)), omega arith)
              tt))))

-- The loop ended, with an error or with commands in range.
abbrev pub Ends : Option (Result DecodeError (List AnsiCommand)) → Type 0
Ends none = ⊥
Ends (some (err e)) = Unit
Ends (some (ok cmds)) = All IsCommand cmds

-- The rest of the loop behind one decoded command.
round-Ends :
    (fuel : ℕ) (bytes : List ℕ) (acc : List AnsiCommand) (r : Parsed AnsiCommand)
    → Reads IsCommand bytes r
    → length bytes ≤ fuel
    → All IsByte bytes
    → All IsCommand acc
    → ((rest : List ℕ) (acc' : List AnsiCommand)
        → length rest ≤ fuel
        → All IsByte rest
        → All IsCommand acc'
        → Ends (decode_loop fuel rest acc'))
    → Ends
        (elim r [ err e ↦ some (err e) | ok (cmd, rest) ↦ decode_loop fuel rest (acc ++ cmd ∷ []) ])
round-Ends fuel bytes acc (err e) reads enough hb ha ih = tt
round-Ends fuel bytes acc (ok (cmd, rest)) reads enough hb ha ih =
    ih rest (acc ++ cmd ∷ []) (omega arith) (reads.0 hb).1
      (All-append IsCommand acc (cmd ∷ []) ha ((reads.0 hb).0, tt))

decode_loop-Ends :
    (fuel : ℕ) (bytes : List ℕ) (acc : List AnsiCommand)
    → length bytes ≤ fuel
    → All IsByte bytes
    → All IsCommand acc
    → Ends (decode_loop fuel bytes acc)
unfolding decode_loop
decode_loop-Ends fuel [] acc enough hb ha = ha
decode_loop-Ends zero (b ∷ bytes) acc enough hb ha = absurd (omega arith)
decode_loop-Ends (suc fuel) (b ∷ bytes) acc enough hb ha =
    round-Ends fuel bytes acc (decode_command b bytes) (decode_command-Reads b bytes) (omega arith)
      hb.1 ha (decode_loop-Ends fuel)

-- Every stream of bytes is decoded or refused with an error, the loop never runs out of fuel, and
-- the commands decoded have coordinates, channels and characters in the ranges of their types.
pub decode_binary-Ends : (bytes : List ℕ) → All IsByte bytes → Ends (decode_binary bytes)
unfolding decode_binary
decode_binary-Ends bytes h = decode_loop-Ends (length bytes) bytes [] (omega arith) h tt
