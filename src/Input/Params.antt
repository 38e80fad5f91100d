-- ===== src/Input/Params.antt =====
-- The parameters of an escape sequence: `parse_kitty` and `parse_sgr` of
-- oxiterm-proto/src/input/decoder.rs, with `str::split` and `str::parse` as they use them.
pub mod Decimal
pub mod Mouse
use oxiterm.Common.{
  ℕ, zero, suc, ◌+◌, ◌-◌, ◌*◌, ◌/◌, ◌%◌, Bool, true, false, ◌&&◌, ◌||◌, Option, none, some, List,
  [], ◌∷◌, ltb, leb, ◌==◌, has_bit, if◌then◌else◌,
}
use oxiterm.Input.{
  KeyKind, KeyModifiers, no_modifiers, KeyEvent, MouseButton, MouseAction, MouseInput,
}
use oxiterm.Input.Utf8.{from_utf8, valid, invalid, truncated}
use oxiterm.Common.{is_char}

-- `s.split(sep)`: one part more than there are separators.
cons_to_first : ℕ → List (List ℕ) → List (List ℕ)
cons_to_first c [] = (c ∷ []) ∷ []
cons_to_first c (part ∷ parts) = (c ∷ part) ∷ parts

pub split : ℕ → List ℕ → List (List ℕ)
unfolding cons_to_first
split sep [] = [] ∷ []
split sep (c ∷ s) =
    let parts = split sep s in if c == sep then [] ∷ parts else cons_to_first c parts

unfoldable pub parse_digits : ℕ → ℕ → List ℕ → Option ℕ
parse_digits max acc [] = some acc
parse_digits max acc (c ∷ s) =
    let acc' = acc * 10 + (c - 48) in
    let rest = parse_digits max acc' s in
    if leb 48 c && leb c 57 && leb acc' max then rest else none

-- `s.parse::<u16>()` and `s.parse::<u32>()`: digits behind an optional plus, and `none` for an empty
-- text, another character or a value above `max`.
pub parse_uint : ℕ → List ℕ → Option ℕ
unfolding parse_digits
parse_uint max [] = none
parse_uint max (c ∷ []) = parse_digits max 0 (c ∷ [])
parse_uint max (c ∷ d ∷ s) =
    if c == b'+' then parse_digits max 0 (d ∷ s) else parse_digits max 0 (c ∷ d ∷ s)

abbrev pub u32_max : ℕ
u32_max = 4294967295

abbrev pub u16_max : ℕ
u16_max = 65535

-- `parts[0].parse::<u32>().ok().and_then(std::char::from_u32)`
pub parse_codepoint : List ℕ → Option ℕ
unfolding parse_uint is_char
parse_codepoint s = elim (parse_uint u32_max s) [
  | none ↦ none
  | some v ↦ if is_char v then some v else none
]

-- `parse::<u32>().unwrap_or(1).saturating_sub(1)`
pub modifier_value : List ℕ → ℕ
unfolding parse_uint
modifier_value s = elim (parse_uint u32_max s) [ none ↦ 0 | some v ↦ v - 1 ]

pub kitty_modifiers : ℕ → KeyModifiers
kitty_modifiers mod_val = record no_modifiers {
  shift = has_bit mod_val 0x01;
  alt = has_bit mod_val 0x02;
  ctrl = has_bit mod_val 0x04;
  meta = has_bit mod_val 0x08;
}

pub kitty_kind : List (List ℕ) → KeyKind
kitty_kind (_ ∷ (c ∷ []) ∷ _) =
    if c == b'2' then KeyKind.repeat else if c == b'3' then KeyKind.release else KeyKind.press
kitty_kind _ = KeyKind.press

-- The second part of the sequence: the modifiers, and the kind behind a colon.
kitty_second : List (List ℕ) → KeyModifiers × KeyKind
unfolding modifier_value kitty_modifiers kitty_kind
kitty_second [] = (no_modifiers, KeyKind.press)
kitty_second (first ∷ rest) = (kitty_modifiers (modifier_value first), kitty_kind (first ∷ rest))

kitty_key : List (List ℕ) → Option KeyEvent
unfolding parse_codepoint kitty_second split
kitty_key [] = none
kitty_key (first ∷ []) = elim (parse_codepoint first) [
  | none ↦ none
  | some c ↦ some (record { codepoint = c; modifiers = no_modifiers; kind = KeyKind.press })
]
kitty_key (first ∷ mod_part ∷ _) = elim (parse_codepoint first) [
  | none ↦ none
  | some c ↦
      let (modifiers, kind) = kitty_second (split b':' mod_part) in
      some (record { codepoint = c; modifiers = modifiers; kind = kind })
]

unfoldable pub parse_kitty : List ℕ → Option KeyEvent
unfolding kitty_key from_utf8
parse_kitty seq = elim (from_utf8 seq) [
  | valid s ↦ kitty_key (split b';' s)
  | invalid ↦ none
  | truncated ↦ none
]

pub sgr_modifiers : ℕ → KeyModifiers
sgr_modifiers b_val = record no_modifiers {
  shift = has_bit b_val 0x04;
  alt = has_bit b_val 0x08;
  ctrl = has_bit b_val 0x10;
}

-- `b_val & 0x43`: the bits 0, 1 and 6.
pub sgr_button : ℕ → MouseButton
sgr_button b_val =
    let masked = b_val % 4 + b_val / 64 % 2 * 64 in
    if masked == 0
    then MouseButton.left
    else if masked == 1
    then MouseButton.middle
    else if masked == 2
    then MouseButton.right
    else if masked == 64
    then MouseButton.wheel_up
    else if masked == 65
    then MouseButton.wheel_down
    else MouseButton.none

pub sgr_action : ℕ → Bool → MouseAction
sgr_action b_val pressed =
    if has_bit b_val 0x20
    then MouseAction.move
    else if pressed
    then MouseAction.press
    else MouseAction.release

pub sgr_mouse : ℕ → ℕ → ℕ → Bool → MouseInput
unfolding sgr_modifiers sgr_button sgr_action
sgr_mouse b_val col row pressed = record {
  col = col;
  row = row;
  button = sgr_button b_val;
  action = sgr_action b_val pressed;
  modifiers = sgr_modifiers b_val;
}

pub sgr_fields : List (List ℕ) → Bool → Option MouseInput
unfolding parse_uint sgr_mouse
sgr_fields (b ∷ c ∷ r ∷ []) pressed = elim (parse_uint u32_max b) [
  | none ↦ none
  | some b_val ↦ elim (parse_uint u16_max c) [
    | none ↦ none
    | some col ↦ elim (parse_uint u16_max r) [
      | none ↦ none
      | some row ↦ some (sgr_mouse b_val col row pressed)
    ]
  ]
]
sgr_fields _ pressed = none

unfoldable pub parse_sgr : List ℕ → Bool → Option MouseInput
unfolding sgr_fields from_utf8 split
parse_sgr seq pressed = elim (from_utf8 seq) [
  | valid s ↦ sgr_fields (split b';' s) pressed
  | invalid ↦ none
  | truncated ↦ none
]
