-- ===== src/Input/Decoder/Recovery.antt =====
-- An unfinished sequence ends: by the clock, or by the capacity of the buffer.
use oxiterm.Common.{
  ℕ, suc, ◌+◌, ◌-◌, ◌<◌, ◌≤◌, ◌≡◌, ◌∙◌, ap, false, none, some, List, [], ◌∷◌, arith, length,
  length-append,
}
use oxiterm.Input.Decoder.{
  State, idle, escaped, csi, apc, apc_escaped, is_idle, InputStateMachine, Fed, feed_idle,
  feed_escaped, feed_csi, feed_apc, feed_apc_escaped, utf8_push, feed, feed_in, Arrival, fresh,
  sgr_timeout, sgr_timeout_guard,
}
use oxiterm.Input.Decoder.Steps.{machine, InTime, Prompt, feed-InTime}
use oxiterm.Input.Decoder.Valid.{Holds, IsValid, Sound, feed-Sound}

guard-stale :
    (m : InputStateMachine) (now : ℕ)
    → m.buffer.capacity ≡ 256
    → is_idle m.state ≡ false
    → sgr_timeout < now - m.last_activity
    → sgr_timeout_guard now m ≡ fresh m.last_activity
unfolding sgr_timeout_guard
guard-stale m now cap busy late = ground arith

-- A byte that comes more than 200 ms after the last one in the middle of a sequence is decoded as by
-- a new machine: nothing of the unfinished sequence is left.
pub feed-stale :
    (m : InputStateMachine) (a : Arrival)
    → IsValid m
    → is_idle m.state ≡ false
    → sgr_timeout < a.checked_at - m.last_activity
    → feed m a ≡ feed (fresh m.last_activity) a
unfolding feed
feed-stale m a v busy late =
    ap (λ (g : InputStateMachine). feed_in g.state (record g { last_activity = a.fed_at }) a.byte)
      (guard-stale m a.checked_at v.capacity busy late)

-- If the machine is busy behind the call, the call has added one byte to the buffer.
abbrev Grows : ℕ → ℕ → Fed → Type 0
Grows n t none = Unit
Grows n t (some (m, e)) =
    is_idle m.state ≡ false → (length m.buffer.buf ≡ n + 1) × (m.last_activity ≡ t)

module _ (buf u : List ℕ) (t byte : ℕ) where
  feed_escaped-Grows : Grows (length buf) t (feed_escaped (machine escaped buf u t) byte)
  unfolding feed_escaped
  feed_escaped-Grows = ground (arith, length-append buf (byte ∷ []))

  feed_csi-Grows : Grows (length buf) t (feed_csi (machine csi buf u t) byte)
  unfolding feed_csi
  feed_csi-Grows = ground (arith, length-append buf (byte ∷ []))

  feed_apc-Grows : Grows (length buf) t (feed_apc (machine apc buf u t) byte)
  unfolding feed_apc
  feed_apc-Grows = ground (arith, length-append buf (byte ∷ []))

  feed_apc_escaped-Grows :
      Grows (length buf) t (feed_apc_escaped (machine apc_escaped buf u t) byte)
  unfolding feed_apc_escaped
  feed_apc_escaped-Grows = ground (arith, length-append buf (byte ∷ []))

  utf8_push-Grows : Grows 0 t (utf8_push (machine idle [] u t) byte)
  unfolding utf8_push
  utf8_push-Grows = ground arith

  feed_idle-Grows : Grows 0 t (feed_idle (machine idle [] u t) byte)
  unfolding feed_idle
  feed_idle-Grows = ground (arith, utf8_push-Grows)

feed_in-Grows :
    (st : State) (buf u : List ℕ) (t byte : ℕ)
    → Holds st buf
    → Grows (length buf) t (feed_in st (machine st buf u t) byte)
feed_in-Grows idle buf u t byte h = rw h (feed_idle-Grows buf u t byte)
feed_in-Grows escaped buf u t byte h = feed_escaped-Grows buf u t byte
feed_in-Grows csi buf u t byte h = feed_csi-Grows buf u t byte
feed_in-Grows apc buf u t byte h = feed_apc-Grows buf u t byte
feed_in-Grows apc_escaped buf u t byte h = feed_apc_escaped-Grows buf u t byte

same_machine :
    (m : InputStateMachine)
    → m.buffer.capacity ≡ 256
    → m ≡ machine m.state m.buffer.buf m.utf8_buf m.last_activity
same_machine m h = ground arith

feed-Grows :
    (m : InputStateMachine) (a : Arrival)
    → IsValid m
    → InTime m.last_activity a
    → Grows (length m.buffer.buf) a.fed_at (feed m a)
feed-Grows m a v h =
    rw
      (ap (λ k. feed k a) (same_machine m v.capacity)
        ∙ feed-InTime m.state m.buffer.buf m.utf8_buf m.last_activity a h)
      (feed_in-Grows m.state m.buffer.buf m.utf8_buf a.fed_at a.byte v.holds)

-- The machine is in the middle of a sequence behind each of the bytes.
abbrev pub StaysBusy : InputStateMachine → List Arrival → Type 0
StaysBusy m [] = Unit
StaysBusy m (a ∷ arrivals) = elim (feed m a) [
  | none ↦ ⊥
  | some (m', e) ↦ (is_idle m'.state ≡ false) × StaysBusy m' arrivals
]

busy-step :
    (r : Fed) (n t : ℕ) (arrivals : List Arrival)
    → Grows n t r
    → Sound r
    → elim r as (λ _. Type 0) [
      | none ↦ ⊥
      | some (m', e) ↦ (is_idle m'.state ≡ false) × StaysBusy m' arrivals
    ]
    → ((m' : InputStateMachine)
        → IsValid m'
        → m'.last_activity ≡ t
        → StaysBusy m' arrivals
        → length m'.buffer.buf + length arrivals ≤ 256)
    → suc n + length arrivals ≤ 256
busy-step none n t arrivals g s busy ih = absurd s
busy-step (some (m', e)) n t arrivals g s busy ih =
    omega (arith, (g busy.0).0, ih m' s (g busy.0).1 busy.1)

-- No sequence keeps the decoder busy for ever: if it stays in the middle of a sequence behind each of
-- some bytes that come in time, they are no more than the room that its buffer had left, of 256.
pub StaysBusy-bound :
    (arrivals : List Arrival) (m : InputStateMachine)
    → IsValid m
    → Prompt m.last_activity arrivals
    → StaysBusy m arrivals
    → length m.buffer.buf + length arrivals ≤ 256
StaysBusy-bound [] m v prompt busy = omega (arith, v.bounded)
StaysBusy-bound (a ∷ arrivals) m v prompt busy = omega (
  arith,
  busy-step (feed m a) (length m.buffer.buf) a.fed_at arrivals (feed-Grows m a v prompt.0)
      (feed-Sound m a v) busy
      (λ m' v' e busy'. StaysBusy-bound arrivals m' v' (rw e prompt.1) busy'),
)
