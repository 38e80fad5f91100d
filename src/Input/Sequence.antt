-- ===== src/Input/Sequence.antt =====
-- oxiterm-proto/src/input/decoder.rs: the event that `feed` makes of a complete escape sequence. Where
-- an index or a slice is out of range the code panics: the outer `none`.
use oxiterm.Common.{
  ℕ, ◌-◌, Bool, false, ◌&&◌, ◌||◌, Option, none, some, List, ◌∷◌, length, get_elem?, take, drop,
  ltb, leb, ◌==◌, if◌then◌else◌,
}
use oxiterm.Input.{InputEvent, key_press, mouse_event, capability_response, set_app_token, unknown}
use oxiterm.Input.Utf8.{from_utf8_lossy}
use oxiterm.Input.Params.{parse_kitty, parse_sgr}

-- `&data[lo..hi]`
unfoldable pub slice : List ℕ → ℕ → ℕ → Option (List ℕ)
slice xs lo hi =
    if leb lo hi && leb hi (length xs) then some (take (hi - lo) (drop lo xs)) else none

or_unknown : List ℕ → Option InputEvent → Option InputEvent
or_unknown seq none = some (unknown seq)
or_unknown seq (some e) = some e

-- `b'u'`: a key of the Kitty protocol.
kitty_event : List ℕ → List ℕ → Option InputEvent
unfolding parse_kitty or_unknown
kitty_event seq params =
    or_unknown seq (elim (parse_kitty params) [ none ↦ none | some k ↦ some (key_press k) ])

-- `b'M' | b'm'`: a mouse report, if it is an SGR one.
mouse_report : List ℕ → ℕ → Option (Option InputEvent)
unfolding parse_sgr or_unknown slice
mouse_report seq term = elim (get_elem? seq 2) [
  | none ↦ none
  | some mark ↦
      if mark == b'<'
      then elim (slice seq 3 (length seq - 1)) [
        | none ↦ none
        | some params ↦ some (
            or_unknown seq (elim (parse_sgr params (term == b'M')) [
              | none ↦ none
              | some e ↦ some (mouse_event e)
            ]))
      ]
      else some (some (unknown seq))
]

-- `b'c'`: a capability response.
da1_report : List ℕ → Option (Option InputEvent)
da1_report seq = elim (get_elem? seq 2) [
  | none ↦ none
  | some mark ↦ some (if mark == b'?' then some (capability_response seq) else some (unknown seq))
]

-- The event of a complete control sequence; the outer `none` is a panic.
unfoldable pub csi_event : List ℕ → ℕ → Option (Option InputEvent)
unfolding kitty_event mouse_report da1_report slice
csi_event seq term =
    if ltb 3 (length seq)
    then elim (slice seq 2 (length seq - 1)) [
      | none ↦ none
      | some params ↦
          if term == b'u'
          then some (kitty_event seq params)
          else if (term == b'M') || (term == b'm')
          then mouse_report seq term
          else if term == b'c'
          then da1_report seq
          else some (some (unknown seq))
    ]
    else some (some (unknown seq))

-- `data.starts_with(&[0x1b, b'_', c])`
starts_apc : ℕ → List ℕ → Bool
starts_apc c (a ∷ b ∷ d ∷ _) = (a == 0x1b) && (b == b'_') && (d == c)
starts_apc c _ = false

unfoldable pub apc_event : List ℕ → Option (Option InputEvent)
unfolding starts_apc slice from_utf8_lossy
apc_event seq =
    if starts_apc b'G' seq
    then some (some (capability_response seq))
    else if starts_apc b'A' seq
    then elim (slice seq 3 (length seq - 2)) [
      | none ↦ none
      | some payload ↦ some (some (set_app_token (from_utf8_lossy payload)))
    ]
    else some (some (unknown seq))
