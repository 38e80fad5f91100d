-- ===== src/Session.antt =====
-- oxiterm-server/src/session.rs: the predictive echo and the debouncer of resizes. Times are those of
-- one clock, in nanoseconds.
pub mod Echo
use oxiterm.Common.{
  ℕ, ◌-◌, Bool, true, false, Option, none, some, List, [], ◌∷◌, ◌++◌, ◌==◌, ltb, if◌then◌else◌,
}
use oxiterm.Common.Texts.{Text}

pub record PtyDimensions : Type 0 where
  pub cols : ℕ
  pub rows : ℕ

pub record PredictiveEcho : Type 0 where
  pub buffer : Text
  pub active_node : Option ℕ

unfoldable pub push_echo : PredictiveEcho → ℕ → PredictiveEcho
push_echo e ch = record e { buffer = e.buffer ++ ch ∷ [] }

-- The buffer behind a confirmation.
abbrev pub confirmed : Text → ℕ → Text
confirmed [] ch = []
confirmed (first ∷ chars) ch = if first == ch then chars else first ∷ chars

unfoldable pub confirm : PredictiveEcho → ℕ → PredictiveEcho
confirm e ch = record e { buffer = confirmed e.buffer ch }

unfoldable pub flush_to_server : PredictiveEcho → Text × PredictiveEcho
flush_to_server e = (e.buffer, record e { buffer = [] })

pub record ResizeDebouncer : Type 0 where
  pub pending : Option PtyDimensions
  pub pushed_at : ℕ
  pub last_update : ℕ

abbrev pub new_debouncer : ℕ → ResizeDebouncer
new_debouncer now = record { pending = none; pushed_at = now; last_update = now }

unfoldable pub push_resize : ResizeDebouncer → PtyDimensions → ℕ → ResizeDebouncer
push_resize d dims now = record d { pending = some dims; pushed_at = now }

unfoldable pub poll : ResizeDebouncer → ℕ → Option PtyDimensions × ResizeDebouncer
poll d now = elim d.pending [
  | none ↦ (none, d)
  | some dims ↦
      if ltb 100000000 (now - d.pushed_at)
      then (some dims, record d { pending = none; last_update = now })
      else (none, d)
]
