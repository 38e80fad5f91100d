-- ===== src/Dom.antt =====
-- oxiterm-proto/src/dom.rs: the nodes of a document. A text is the list of its code points; the
-- computed style, which holds floating-point numbers, is a parameter.
use oxiterm.Common.{ℕ, Bool, Option, none, List, []}

pub data NodeTag : Type 0 where
  screen box text input button img video for_loop diagram : NodeTag

abbrev pub Text : Type 0
Text = List ℕ

pub record NodeAttributes : Type 0 where
  pub id : Option Text
  pub class : List Text
  pub style_raw : Option Text
  pub src : Option Text
  pub event_htmx : Option Text
  pub bind_state : Option Text
  pub alt : Option Text
  pub placeholder : Option Text
  pub name : Option Text
  pub bind_show : Option Text
  pub bind_value : Option Text
  pub each : Option Text
  pub input_type : Option Text
  pub preview : Option Text
  pub preview_anchor : Option Text
  pub draggable : Option Bool
  pub drag_handle : Option Bool
  pub drag_state_x : Option Text
  pub drag_state_y : Option Text
  pub event_drag_end : Option Text
  pub bind_width : Option Text
  pub bind_height : Option Text
  pub bind_top : Option Text
  pub bind_left : Option Text
  pub bind_opacity : Option Text
  pub bind_z_index : Option Text

-- `NodeAttributes::default()`
abbrev pub no_attributes : NodeAttributes
no_attributes = record {
  id = none;
  class = [];
  style_raw = none;
  src = none;
  event_htmx = none;
  bind_state = none;
  alt = none;
  placeholder = none;
  name = none;
  bind_show = none;
  bind_value = none;
  each = none;
  input_type = none;
  preview = none;
  preview_anchor = none;
  draggable = none;
  drag_handle = none;
  drag_state_x = none;
  drag_state_y = none;
  event_drag_end = none;
  bind_width = none;
  bind_height = none;
  bind_top = none;
  bind_left = none;
  bind_opacity = none;
  bind_z_index = none;
}

-- A `NodeId` is the number that it wraps.
pub record Node (Style : Type 0) : Type 0 where
  pub tag : NodeTag
  pub attrs : NodeAttributes
  pub children : List ℕ
  pub text_content : Option Text
  pub style : Style

-- `Node::new`, with the default style.
abbrev pub new_node : {Style : Type 0} → Style → NodeTag → Node Style
new_node style tag = record {
  tag = tag;
  attrs = no_attributes;
  children = [];
  text_content = none;
  style = style;
}
