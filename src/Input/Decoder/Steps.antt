-- ===== src/Input/Decoder/Steps.antt =====
-- Single steps of the decoder on machines that are written out.
use oxiterm.Common.{
  ℕ, ◌-◌, ◌≤◌, ◌<◌, ◌≡◌, true, false, none, some, List, [], ◌∷◌, ◌++◌, arith, length,
}
use oxiterm.Input.Utf8.{in_range}
use oxiterm.Input.Sequence.{csi_event}
use oxiterm.Input.Decoder.{
  State, idle, escaped, csi, InputStateMachine, feed_in, sgr_timeout, feed, Arrival, emit_from,
}

-- A machine whose sequence buffer has its capacity of 256 bytes.
abbrev pub machine : State → List ℕ → List ℕ → ℕ → InputStateMachine
machine st buf u t = record {
  state = st;
  buffer = record { buf = buf; capacity = 256 };
  utf8_buf = u;
  last_activity = t;
}

-- The byte comes before the guard's time is up.
abbrev pub InTime : ℕ → Arrival → Type 0
InTime t a = a.checked_at - t ≤ sgr_timeout

-- All bytes do, counted from one to the next.
abbrev pub Prompt : ℕ → List Arrival → Type 0
Prompt t [] = Unit
Prompt t (a ∷ arrivals) = InTime t a × Prompt a.fed_at arrivals

abbrev pub last_fed : ℕ → List Arrival → ℕ
last_fed t [] = t
last_fed t (a ∷ arrivals) = last_fed a.fed_at arrivals

abbrev pub bytes : List Arrival → List ℕ
bytes [] = []
bytes (a ∷ arrivals) = a.byte ∷ bytes arrivals

module _ (st : State) (buf u : List ℕ) (t : ℕ) (a : Arrival) where
  -- A byte in time is handled by its state's branch.
  pub feed-InTime :
      InTime t a → feed (machine st buf u t) a ≡ feed_in st (machine st buf u a.fed_at) a.byte
  unfolding feed
  feed-InTime h = ground arith

module _ (buf u : List ℕ) (t : ℕ) (a : Arrival) where
  pub feed_escape :
      a.byte ≡ 0x1b
      → feed (machine idle [] u t) a ≡ some (machine escaped (0x1b ∷ []) u a.fed_at, none)
  unfolding feed
  feed_escape h = ground arith

  pub feed_bracket :
      InTime t a
      → a.byte ≡ b'['
      → feed (machine escaped (0x1b ∷ []) u t) a
        ≡ some (machine csi (0x1b ∷ b'[' ∷ []) u a.fed_at, none)
  unfolding feed
  feed_bracket h e = ground arith

  pub feed_param :
      InTime t a
      → in_range 0x40 0x7e a.byte ≡ false
      → length buf < 256
      → feed (machine csi buf u t) a ≡ some (machine csi (buf ++ a.byte ∷ []) u a.fed_at, none)
  unfolding feed
  feed_param h e room = ground arith

  pub feed_final :
      InTime t a
      → in_range 0x40 0x7e a.byte ≡ true
      → length buf < 256
      → feed (machine csi buf u t) a
        ≡ emit_from (machine idle [] [] a.fed_at) (csi_event (buf ++ a.byte ∷ []) a.byte)
  unfolding feed
  feed_final h e room = ground arith
