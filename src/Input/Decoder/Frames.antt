-- ===== src/Input/Decoder/Frames.antt =====
-- A control sequence that arrives whole and in time is one event.
use oxiterm.Common.{
  ℕ, ◌+◌, ◌≤◌, ◌<◌, ◌≡◌, ◌∙◌, ap, true, false, Option, none, some, List, [], ◌∷◌, ◌++◌,
  append_assoc, arith, length, length-append, All,
}
use oxiterm.Input.{InputEvent}
use oxiterm.Input.Utf8.{in_range}
use oxiterm.Input.Sequence.{csi_event}
use oxiterm.Input.Decoder.{
  idle, csi, InputStateMachine, feed_onto, feed_slice, push_event, Arrival, fresh,
}
use oxiterm.Input.Decoder.Steps.{
  machine, Prompt, last_fed, bytes, feed_escape, feed_bracket, feed_param, feed_final,
}

-- A byte between the introducer and the final byte of a control sequence.
abbrev pub IsParam : ℕ → Type 0
IsParam byte = in_range 0x40 0x7e byte ≡ false

-- The events behind a sequence, whose event may be a panic.
abbrev pub one_event : ℕ → Option (Option InputEvent) → Option (InputStateMachine × List InputEvent)
one_event t none = none
one_event t (some ev) = some (machine idle [] [] t, push_event ev [])

abbrev emitted : ℕ → List ℕ → ℕ → Option (InputStateMachine × List InputEvent)
emitted t seq final = one_event t (csi_event seq final)

module _ (u : List ℕ) (final : ℕ) (is_final : in_range 0x40 0x7e final ≡ true) where
  params_and_final :
      (params buf : List ℕ) (t : ℕ) (arrivals : List Arrival)
      → bytes arrivals ≡ params ++ final ∷ []
      → Prompt t arrivals
      → All IsParam params
      → length buf + length params < 256
      → feed_onto (machine csi buf u t) [] arrivals
        ≡ emitted (last_fed t arrivals) (buf ++ (params ++ final ∷ [])) final
  unfolding feed_onto
  params_and_final [] buf t [] e p h room = cc
  params_and_final [] buf t (a ∷ b ∷ arrivals) e p h room = cc
  params_and_final [] buf t (a ∷ []) e p h room =
      let ea : a.byte ≡ final = cc in
      ground (arith, feed_final buf u t a p.0 (rw ea is_final) (omega arith))
  params_and_final (x ∷ params) buf t [] e p h room = cc
  params_and_final (x ∷ params) buf t (a ∷ arrivals) e p h room =
      let ea : a.byte ≡ x = cc in
      rw (feed_param buf u t a p.0 (rw ea h.0) (omega arith), feed_onto)
        (params_and_final params (buf ++ a.byte ∷ []) a.fed_at arrivals (cc) p.1 h.1
            (omega (arith, length-append buf (a.byte ∷ [])))
          ∙ ap (λ s. emitted (last_fed a.fed_at arrivals) s final)
              (append_assoc buf (a.byte ∷ []) (params ++ final ∷ [])
                ∙ ap (λ b. buf ++ b ∷ (params ++ final ∷ [])) ea))

-- ESC, `[`, at most 253 parameter bytes and a final byte, each in time behind the one before it,
-- give exactly the event that `csi_event` makes of the sequence, and leave the machine as new.
pub csi_frame :
    (t : ℕ) (esc : Arrival) (params : List ℕ) (final : ℕ) (arrivals : List Arrival)
    → esc.byte ≡ 0x1b
    → bytes arrivals ≡ b'[' ∷ (params ++ final ∷ [])
    → Prompt esc.fed_at arrivals
    → All IsParam params
    → in_range 0x40 0x7e final ≡ true
    → length params ≤ 253
    → feed_slice (fresh t) (esc ∷ arrivals)
      ≡ one_event
          (last_fed esc.fed_at arrivals)
          (csi_event (0x1b ∷ b'[' ∷ (params ++ final ∷ [])) final)
unfolding feed_slice feed_onto
csi_frame t esc params final [] he e prompt hp hf room = cc
csi_frame t esc params final (a ∷ arrivals) he e prompt hp hf room =
    let ea : a.byte ≡ b'[' = cc in
    rw (feed_escape [] [] t esc he, feed_onto)
      (rw (feed_bracket [] [] esc.fed_at a prompt.0 ea, feed_onto)
        (params_and_final [] final hf params (0x1b ∷ b'[' ∷ []) a.fed_at arrivals (cc) prompt.1 hp
          (omega arith)))
