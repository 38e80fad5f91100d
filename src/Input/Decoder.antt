-- ===== src/Input/Decoder.antt =====
-- oxiterm-proto/src/input/decoder.rs: the byte-wise decoder of a terminal's input. A function that
-- may panic (an index or a slice out of range, `unwrap`) returns an `Option`; `none` is the panic.
-- `Instant::now()` is read twice in `feed`, so the two readings come with the byte, in nanoseconds.
pub mod Valid
pub mod Steps
pub mod Frames
pub mod Typing
pub mod Text
pub mod Recovery
pub mod Mouse
mod Tests
use oxiterm.Common.{
  ℕ, zero, suc, ◌+◌, ◌-◌, Bool, true, false, not, ◌&&◌, ◌||◌, Option, none, some, List, [], ◌∷◌,
  ◌++◌, length, get_elem?, take, drop, ltb, leb, ◌==◌, if◌then◌else◌,
}
use oxiterm.Input.{
  KeyKind, no_modifiers, InputEvent, key_press, mouse_event, capability_response, xon, xoff,
  set_app_token, unknown,
}
use oxiterm.Input.Utf8.{in_range, from_utf8, valid, invalid, truncated}
use oxiterm.Input.Sequence.{csi_event, apc_event}

pub data State : Type 0 where
  idle escaped csi apc apc_escaped : State

pub record BoundedSubnegBuffer : Type 0 where
  pub buf : List ℕ
  pub capacity : ℕ

-- `none` is `Err(OverflowError)`, which leaves the buffer as it was.
unfoldable pub push : BoundedSubnegBuffer → ℕ → Option BoundedSubnegBuffer
push b byte =
    if leb b.capacity (length b.buf) then none else some (record b { buf = b.buf ++ byte ∷ [] })

unfoldable pub clear : BoundedSubnegBuffer → BoundedSubnegBuffer
clear b = record b { buf = [] }

pub record InputStateMachine : Type 0 where
  pub state : State
  pub buffer : BoundedSubnegBuffer
  pub utf8_buf : List ℕ
  pub last_activity : ℕ

-- `InputStateMachine::new`, at the time `now`.
abbrev pub fresh : ℕ → InputStateMachine
fresh now = record {
  state = idle;
  buffer = record { buf = []; capacity = 256 };
  utf8_buf = [];
  last_activity = now;
}

unfoldable pub reset : InputStateMachine → InputStateMachine
unfolding clear
reset m = record m { state = idle; buffer = clear m.buffer; utf8_buf = [] }

-- `Duration::from_millis(200)`
abbrev pub sgr_timeout : ℕ
sgr_timeout = 200000000

abbrev pub is_idle : State → Bool
is_idle idle = true
is_idle _ = false

-- `elapsed()` is 0 where the clock reads less than `last_activity`.
unfoldable pub sgr_timeout_guard : ℕ → InputStateMachine → InputStateMachine
unfolding reset
sgr_timeout_guard now m =
    if not (is_idle m.state) && ltb sgr_timeout (now - m.last_activity) then reset m else m

-- What a call of `feed` leaves: the machine, and the event if there is one.
abbrev pub Fed : Type 0
Fed = Option (InputStateMachine × Option InputEvent)

abbrev pub quiet : InputStateMachine → Fed
quiet m = some (m, none)

abbrev pub emit : InputStateMachine → InputEvent → Fed
emit m e = some (m, some e)

abbrev pub key : ℕ → InputEvent
key c = key_press (record { codepoint = c; modifiers = no_modifiers; kind = KeyKind.press })

-- `expected_len == 0`: the byte starts no UTF-8 sequence.
expected_len : ℕ → ℕ
expected_len byte =
    if in_range 0xc2 0xdf byte
    then 2
    else if in_range 0xe0 0xef byte
    then 3
    else if in_range 0xf0 0xf4 byte
    then 4
    else 0

abbrev is_empty : List ℕ → Bool
is_empty [] = true
is_empty (_ ∷ _) = false

-- `self.utf8_buf.push(byte)` and the match on `from_utf8(&self.utf8_buf)`.
pub utf8_push : InputStateMachine → ℕ → Fed
unfolding from_utf8
utf8_push m byte =
    let pending = m.utf8_buf ++ byte ∷ [] in
    elim (from_utf8 pending) [
      | valid s ↦ elim s [ [] ↦ none | cp ∷ _ ↦ emit (record m { utf8_buf = [] }) (key cp) ]
      | invalid ↦ quiet (record m { utf8_buf = [] })
      | truncated ↦ quiet (record m { utf8_buf = if leb 4 (length pending) then [] else pending })
    ]

feed_utf8 : InputStateMachine → ℕ → Fed
unfolding utf8_push expected_len
feed_utf8 m byte =
    if is_empty m.utf8_buf && (expected_len byte == 0) then quiet m else utf8_push m byte

-- `let _ = self.buffer.push(byte)`
push_or_ignore : BoundedSubnegBuffer → ℕ → BoundedSubnegBuffer
unfolding push
push_or_ignore b byte = elim (push b byte) [ none ↦ b | some b' ↦ b' ]

feed_idle : InputStateMachine → ℕ → Fed
unfolding feed_utf8 push_or_ignore
feed_idle m byte =
    if byte == 0x1b
    then quiet (record m { state = escaped; buffer = push_or_ignore m.buffer byte })
    else if byte == 0x11
    then emit m xon
    else if byte == 0x13
    then emit m xoff
    else if leb 0x80 byte
    then feed_utf8 m byte
    else emit (record m { utf8_buf = [] }) (key byte)

feed_escaped : InputStateMachine → ℕ → Fed
unfolding push reset
feed_escaped m byte = elim (push m.buffer byte) [
  | none ↦ quiet (reset m)
  | some b ↦
      if byte == b'['
      then quiet (record m { state = csi; buffer = b })
      else if byte == b'_'
      then quiet (record m { state = apc; buffer = b })
      else emit (reset (record m { buffer = b })) (unknown b.buf)
]

-- The machine is reset before the event is made.
pub emit_from : InputStateMachine → Option (Option InputEvent) → Fed
emit_from m none = none
emit_from m (some e) = some (m, e)

feed_csi : InputStateMachine → ℕ → Fed
unfolding push reset csi_event emit_from
feed_csi m byte = elim (push m.buffer byte) [
  | none ↦ quiet (reset m)
  | some b ↦
      if in_range 0x40 0x7e byte
      then emit_from (reset (record m { buffer = b })) (csi_event b.buf byte)
      else quiet (record m { buffer = b })
]

feed_apc : InputStateMachine → ℕ → Fed
unfolding push reset
feed_apc m byte = elim (push m.buffer byte) [
  | none ↦ quiet (reset m)
  | some b ↦ quiet (record m { buffer = b; state = if byte == 0x1b then apc_escaped else apc })
]

feed_apc_escaped : InputStateMachine → ℕ → Fed
unfolding push reset apc_event emit_from
feed_apc_escaped m byte = elim (push m.buffer byte) [
  | none ↦ quiet (reset m)
  | some b ↦
      if byte == b'\\'
      then emit_from (reset (record m { buffer = b })) (apc_event b.buf)
      else if byte == 0x1b
      then quiet (record m { buffer = b })
      else quiet (record m { buffer = b; state = apc })
]

abbrev feed_in : State → InputStateMachine → ℕ → Fed
feed_in idle = feed_idle
feed_in escaped = feed_escaped
feed_in csi = feed_csi
feed_in apc = feed_apc
feed_in apc_escaped = feed_apc_escaped

-- A byte, and the clock as the guard and then `feed` itself read it.
pub record Arrival : Type 0 where
  pub byte : ℕ
  pub checked_at : ℕ
  pub fed_at : ℕ

pub feed : InputStateMachine → Arrival → Fed
unfolding feed_idle feed_escaped feed_csi feed_apc feed_apc_escaped sgr_timeout_guard
feed m a =
    let m' = record (sgr_timeout_guard a.checked_at m) { last_activity = a.fed_at } in
    feed_in m'.state m' a.byte

abbrev push_event : Option InputEvent → List InputEvent → List InputEvent
push_event none events = events
push_event (some e) events = events ++ e ∷ []

pub feed_onto :
    InputStateMachine
    → List InputEvent
    → List Arrival
    → Option (InputStateMachine × List InputEvent)
unfolding feed
feed_onto m events [] = some (m, events)
feed_onto m events (a ∷ arrivals) = elim (feed m a) [
  | none ↦ none
  | some (m', ev) ↦ feed_onto m' (push_event ev events) arrivals
]

-- All events of a slice of bytes, in order.
pub feed_slice : InputStateMachine → List Arrival → Option (InputStateMachine × List InputEvent)
unfolding feed_onto
feed_slice m arrivals = feed_onto m [] arrivals
