-- ===== src/Input.antt =====
-- oxiterm-proto/src/input/mod.rs: the events that a terminal's bytes are decoded into. A `char` is
-- its code point and a `String` the list of its code points.
pub mod Utf8
pub mod Params
pub mod Sequence
pub mod Decoder
use oxiterm.Common.{ℕ, Bool, false, List}

pub data KeyKind : Type 0 where
  press repeat release : KeyKind

pub record KeyModifiers : Type 0 where
  pub shift : Bool
  pub alt : Bool
  pub ctrl : Bool
  pub meta : Bool
  pub shift_lock : Bool
  pub num_lock : Bool

-- `KeyModifiers::default()`
abbrev pub no_modifiers : KeyModifiers
no_modifiers = record {
  shift = false;
  alt = false;
  ctrl = false;
  meta = false;
  shift_lock = false;
  num_lock = false;
}

pub record KeyEvent : Type 0 where
  pub codepoint : ℕ
  pub modifiers : KeyModifiers
  pub kind : KeyKind

pub data MouseButton : Type 0 where
  left middle right wheel_up wheel_down none : MouseButton

pub data MouseAction : Type 0 where
  press release move : MouseAction

pub record MouseInput : Type 0 where
  pub col : ℕ
  pub row : ℕ
  pub button : MouseButton
  pub action : MouseAction
  pub modifiers : KeyModifiers

pub data InputEvent : Type 0 where
  key_press : KeyEvent → InputEvent
  mouse_event : MouseInput → InputEvent
  resize : ℕ → ℕ → InputEvent
  capability_response : List ℕ → InputEvent
  xon xoff refresh reload scroll_up scroll_down : InputEvent
  text_input : List ℕ → InputEvent
  state_patched : InputEvent
  switch_viewport : Bool → InputEvent
  navigate_to : List ℕ → InputEvent
  open_url : List ℕ → InputEvent
  set_app_token : List ℕ → InputEvent
  unknown : List ℕ → InputEvent
