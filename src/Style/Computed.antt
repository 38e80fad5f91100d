-- ===== src/Style/Computed.antt =====
-- oxiterm-proto/src/style.rs: the style of a node as it is computed. A floating-point number is of
-- a type that is a parameter.
use oxiterm.Common.{ℕ, Option, List}
use oxiterm.Style.{AnsiColor}

pub data Position : Type 0 where
  static relative absolute fixed : Position

pub data AnimatableProperty : Type 0 where
  all left top right bottom width height : AnimatableProperty
  margin_left margin_top margin_right margin_bottom opacity fg bg : AnimatableProperty

pub data Easing (F : Type 0) : Type 0 where
  linear ease ease_in ease_out ease_in_out : Easing F
  cubic_bezier : F → F → F → F → Easing F
  spring : (stiffness damping mass : F) → Easing F

pub record TransitionSpec (F : Type 0) : Type 0 where
  pub property : AnimatableProperty
  pub duration_ms : ℕ
  pub delay_ms : ℕ
  pub easing : Easing F

pub data WrapMode : Type 0 where
  no_wrap word : WrapMode

pub data FlexDirection : Type 0 where
  row column : FlexDirection

pub data AlignItems : Type 0 where
  flex_start flex_end center stretch : AlignItems

pub data JustifyContent : Type 0 where
  flex_start flex_end center space_between space_around : JustifyContent

-- `style::Rect`: the sizes of padding or margin.
pub record Sides : Type 0 where
  pub top : ℕ
  pub right : ℕ
  pub bottom : ℕ
  pub left : ℕ

pub record BorderChars : Type 0 where
  pub top_left : ℕ
  pub top : ℕ
  pub top_right : ℕ
  pub left : ℕ
  pub right : ℕ
  pub bot_left : ℕ
  pub bot : ℕ
  pub bot_right : ℕ

abbrev pub single : BorderChars
single = record {
  top_left = 0x250c;
  top = 0x2500;
  top_right = 0x2510;
  left = 0x2502;
  right = 0x2502;
  bot_left = 0x2514;
  bot = 0x2500;
  bot_right = 0x2518;
}

abbrev pub rounded : BorderChars
rounded = record {
  top_left = 0x256d;
  top = 0x2500;
  top_right = 0x256e;
  left = 0x2502;
  right = 0x2502;
  bot_left = 0x2570;
  bot = 0x2500;
  bot_right = 0x256f;
}

abbrev pub double : BorderChars
double = record {
  top_left = 0x2554;
  top = 0x2550;
  top_right = 0x2557;
  left = 0x2551;
  right = 0x2551;
  bot_left = 0x255a;
  bot = 0x2550;
  bot_right = 0x255d;
}

pub record BorderStyle : Type 0 where
  pub fg : AnsiColor
  pub chars : BorderChars

-- The signed offsets and the depth are of a type of integers.
pub record ComputedStyle (F Z : Type 0) : Type 0 where
  pub fg : AnsiColor
  pub bg : AnsiColor
  pub width : Option ℕ
  pub height : Option ℕ
  pub flex_direction : FlexDirection
  pub align_items : AlignItems
  pub justify_content : JustifyContent
  pub padding : Sides
  pub margin : Sides
  pub border : Option BorderStyle
  pub flex : Option F
  pub wrap : WrapMode
  pub position : Position
  pub top : Option Z
  pub right : Option Z
  pub bottom : Option Z
  pub left : Option Z
  pub z_index : Option Z
  pub transitions : List (TransitionSpec F)
  pub opacity : Option F
