-- ===== src/Input/Decoder/Valid.antt =====
-- The invariant of the decoder: the buffers stay bounded and hold what the state says, and no byte
-- makes `feed` panic.
use oxiterm.Common.{
  ℕ, zero, suc, ◌+◌, ◌-◌, ◌*◌, ◌≤◌, ◌≡◌, ◌≢◌, refl, Option, none, some, List, [], ◌∷◌, ◌++◌, arith,
  length, length-append, take,
}
use oxiterm.Input.{InputEvent}
use oxiterm.Input.Utf8.{
  Utf8Step, Utf8Result, start, tail, emits, wants, bad, utf8_byte, from_utf8_at, from_utf8, valid,
  invalid, truncated, prepend,
}
use oxiterm.Input.Sequence.{csi_event, apc_event}
use oxiterm.Input.Decoder.{
  State, idle, escaped, csi, apc, apc_escaped, InputStateMachine, reset, Fed, feed_idle, utf8_push,
  feed_escaped, feed_csi, feed_apc, feed_apc_escaped, feed_in, sgr_timeout_guard, feed, Arrival,
  feed_onto, push_event, feed_slice, fresh,
}

abbrev pub last_or : ℕ → List ℕ → ℕ
last_or d [] = d
last_or d (x ∷ xs) = last_or x xs

last_or-append : (d : ℕ) (xs : List ℕ) (y : ℕ) → last_or d (xs ++ y ∷ []) ≡ y
last_or-append d [] y = refl
last_or-append d (x ∷ xs) y = last_or-append x xs y

take_two-append :
    (buf : List ℕ) (a b y : ℕ) → take 2 buf ≡ a ∷ b ∷ [] → take 2 (buf ++ y ∷ []) ≡ a ∷ b ∷ []
take_two-append [] a b y h = ground arith
take_two-append (x ∷ []) a b y h = ground arith
take_two-append (x ∷ x' ∷ buf) a b y h = h

-- What the buffer holds in each state.
abbrev pub Holds : State → List ℕ → Type 0
Holds idle buf = buf ≡ []
Holds escaped buf = buf ≡ 0x1b ∷ []
Holds csi buf = take 2 buf ≡ 0x1b ∷ b'[' ∷ []
Holds apc buf = take 2 buf ≡ 0x1b ∷ b'_' ∷ []
Holds apc_escaped buf = (take 2 buf ≡ 0x1b ∷ b'_' ∷ []) × (3 ≤ length buf) × (last_or 0 buf ≡ 0x1b)

pub record IsValid (m : InputStateMachine) : Type 0 where
  pub capacity : m.buffer.capacity ≡ 256
  pub bounded : length m.buffer.buf ≤ 256
  pub utf8_bounded : length m.utf8_buf ≤ 3
  pub holds : Holds m.state m.buffer.buf

-- The call did not panic, and left a valid machine.
abbrev pub Sound : Fed → Type 0
Sound none = ⊥
Sound (some (m, e)) = IsValid m

-- Only the empty input decodes to no character at all.
prepend-ne : (c : ℕ) (r : Utf8Result) → prepend c r ≢ valid []
prepend-ne c (valid s) = ground arith
prepend-ne c invalid = ground arith
prepend-ne c truncated = ground arith

from_utf8_at-tail :
    (bs : List ℕ) (lo hi left acc : ℕ) → from_utf8_at (tail lo hi left acc) bs ≢ valid []
unfolding from_utf8_at
from_utf8_at-tail [] lo hi left acc = ground arith
from_utf8_at-tail (b ∷ bs) lo hi zero acc =
    ground (arith, prepend-ne (acc * 64 + (b - 128)) (from_utf8_at start bs))
from_utf8_at-tail (b ∷ bs) lo hi (suc left) acc =
    ground (arith, from_utf8_at-tail bs 128 191 left (acc * 64 + (b - 128)))

-- What a step from the start can lead to.
step-ne :
    (r : Utf8Step) (bs : List ℕ)
    → r ≢ wants start
    → (elim r [
      | emits c ↦ prepend c (from_utf8_at start bs)
      | wants st' ↦ from_utf8_at st' bs
      | bad ↦ invalid
    ])
      ≢ valid []
step-ne (emits c) bs h = prepend-ne c (from_utf8_at start bs)
step-ne (wants start) bs h = absurd (h refl)
step-ne (wants (tail lo hi left acc)) bs h = from_utf8_at-tail bs lo hi left acc
step-ne bad bs h = ground arith

lead-ne : (b : ℕ) → utf8_byte start b ≢ wants start
unfolding utf8_byte
lead-ne b = ground arith

from_utf8-append-ne : (bs : List ℕ) (b : ℕ) → from_utf8 (bs ++ b ∷ []) ≢ valid []
unfolding from_utf8
from_utf8-append-ne [] b = step-ne (utf8_byte start b) [] (lead-ne b)
from_utf8-append-ne (a ∷ bs) b = step-ne (utf8_byte start a) (bs ++ b ∷ []) (lead-ne a)

csi_event-total : (seq : List ℕ) (term : ℕ) → csi_event seq term ≢ none
unfolding csi_event
csi_event-total [] term = ground arith
csi_event-total (a ∷ []) term = ground arith
csi_event-total (a ∷ b ∷ []) term = ground arith
csi_event-total (a ∷ b ∷ c ∷ []) term = ground arith
csi_event-total (a ∷ b ∷ c ∷ d ∷ seq) term = ground arith

-- The token of an application sequence lies between its opening and its terminator.
apc_event-total : (buf : List ℕ) → Holds apc_escaped buf → apc_event (buf ++ b'\\' ∷ []) ≢ none
unfolding apc_event
apc_event-total [] h = ground arith
apc_event-total (a ∷ []) h = ground arith
apc_event-total (a ∷ b ∷ []) h = ground arith
apc_event-total (a ∷ b ∷ c ∷ []) h = ground arith
apc_event-total (a ∷ b ∷ c ∷ d ∷ buf) h = ground (arith, length-append buf (b'\\' ∷ []))

abbrev machine : State → List ℕ → ℕ → List ℕ → ℕ → InputStateMachine
machine st buf cap u t = record {
  state = st;
  buffer = record { buf = buf; capacity = cap };
  utf8_buf = u;
  last_activity = t;
}

module _ (buf : List ℕ) (cap : ℕ) (u : List ℕ) (t byte : ℕ) (is256 : cap ≡ 256)
    (bounded : length buf ≤ 256) (short : length u ≤ 3) where
  utf8_push-Sound : buf ≡ [] → Sound (utf8_push (machine idle buf cap u t) byte)
  unfolding utf8_push
  utf8_push-Sound e = ground (arith, from_utf8-append-ne u byte, length-append u (byte ∷ []))

  feed_idle-Sound : buf ≡ [] → Sound (feed_idle (machine idle buf cap u t) byte)
  unfolding feed_idle
  feed_idle-Sound e = ground (arith, utf8_push-Sound e)

  feed_escaped-Sound : buf ≡ 0x1b ∷ [] → Sound (feed_escaped (machine escaped buf cap u t) byte)
  unfolding feed_escaped
  feed_escaped-Sound e = ground arith

  feed_csi-Sound : Holds csi buf → Sound (feed_csi (machine csi buf cap u t) byte)
  unfolding feed_csi
  feed_csi-Sound e = ground (
    arith,
    csi_event-total (buf ++ byte ∷ []) byte,
    take_two-append buf 0x1b b'[' byte e,
    length-append buf (byte ∷ []),
  )

  feed_apc-Sound : Holds apc buf → Sound (feed_apc (machine apc buf cap u t) byte)
  unfolding feed_apc
  feed_apc-Sound e = ground (
    arith,
    take_two-append buf 0x1b b'_' byte e,
    length-append buf (byte ∷ []),
    last_or-append 0 buf byte,
  )

  feed_apc_escaped-Sound :
      Holds apc_escaped buf → Sound (feed_apc_escaped (machine apc_escaped buf cap u t) byte)
  unfolding feed_apc_escaped
  feed_apc_escaped-Sound e = ground (
    arith,
    apc_event-total buf e,
    take_two-append buf 0x1b b'_' byte e.0,
    length-append buf (byte ∷ []),
    last_or-append 0 buf byte,
  )

  feed_in-Sound : (st : State) → Holds st buf → Sound (feed_in st (machine st buf cap u t) byte)
  feed_in-Sound idle = feed_idle-Sound
  feed_in-Sound escaped = feed_escaped-Sound
  feed_in-Sound csi = feed_csi-Sound
  feed_in-Sound apc = feed_apc-Sound
  feed_in-Sound apc_escaped = feed_apc_escaped-Sound

pub reset-IsValid : {m : InputStateMachine} → IsValid m → IsValid (reset m)
unfolding reset
reset-IsValid v = record {
  capacity = v.capacity;
  bounded = omega arith;
  utf8_bounded = omega arith;
  holds = refl;
}

guard-IsValid : {m : InputStateMachine} (now : ℕ) → IsValid m → IsValid (sgr_timeout_guard now m)
unfolding sgr_timeout_guard
guard-IsValid now v = ground (arith, reset-IsValid v)

-- From a valid machine no byte, at whatever times, makes `feed` panic, and the machine it leaves is
-- valid: the sequence buffer holds at most 256 bytes and what the state says, the UTF-8 buffer at
-- most three.
pub feed-Sound : (m : InputStateMachine) (a : Arrival) → IsValid m → Sound (feed m a)
unfolding feed
feed-Sound m a v =
    let m' = sgr_timeout_guard a.checked_at m in
    let v' = guard-IsValid a.checked_at v in
    feed_in-Sound m'.buffer.buf m'.buffer.capacity m'.utf8_buf a.fed_at a.byte v'.capacity
      v'.bounded v'.utf8_bounded m'.state v'.holds

-- The same of a slice of bytes.
abbrev pub AllSound : Option (InputStateMachine × List InputEvent) → Type 0
AllSound none = ⊥
AllSound (some (m, events)) = IsValid m

after-AllSound :
    (r : Fed) (events : List InputEvent) (arrivals : List Arrival)
    → Sound r
    → ((m : InputStateMachine) (events' : List InputEvent)
        → IsValid m
        → AllSound (feed_onto m events' arrivals))
    → AllSound
        (elim r [ none ↦ none | some (m', ev) ↦ feed_onto m' (push_event ev events) arrivals ])
after-AllSound none events arrivals h ih = h
after-AllSound (some (m, ev)) events arrivals h ih = ih m (push_event ev events) h

feed_onto-AllSound :
    (arrivals : List Arrival) (m : InputStateMachine) (events : List InputEvent)
    → IsValid m
    → AllSound (feed_onto m events arrivals)
unfolding feed_onto
feed_onto-AllSound [] m events v = v
feed_onto-AllSound (a ∷ arrivals) m events v =
    after-AllSound (feed m a) events arrivals (feed-Sound m a v) (feed_onto-AllSound arrivals)

-- A new machine takes any stream of bytes, arriving at any times, with no panic, and is valid
-- behind it.
pub feed_slice-AllSound :
    (now : ℕ) (arrivals : List Arrival) → AllSound (feed_slice (fresh now) arrivals)
unfolding feed_slice
feed_slice-AllSound now arrivals =
    feed_onto-AllSound arrivals (fresh now) []
      (record { capacity = refl; bounded = omega arith; utf8_bounded = omega arith; holds = refl })
