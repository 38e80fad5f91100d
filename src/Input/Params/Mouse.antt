-- ===== src/Input/Params/Mouse.antt =====
-- An SGR mouse report, as a terminal writes it, is read back as the mouse input that it reports.
use oxiterm.Common.{
  ℕ, ◌+◌, ◌<◌, ◌≤◌, ◌≡◌, refl, ◌∙◌, ap, Bool, true, false, some, List, [], ◌∷◌, ◌++◌, length,
  length-append, arith, All, All-append, if◌then◌else◌,
}
use oxiterm.Input.{no_modifiers, MouseButton, MouseAction, MouseInput}
use oxiterm.Input.Utf8.{from_utf8_at, start, valid}
use oxiterm.Input.Params.{
  split, sgr_button, sgr_action, sgr_modifiers, sgr_mouse, parse_sgr, u16_max, u32_max,
}
use oxiterm.Input.Params.Decimal.{
  decimal, IsDigit, decimal-IsDigit, length-decimal, parse_uint-decimal, split-last, split-append,
}

-- xterm's button code: the button, the modifiers, and 32 for a motion.
button_code : MouseButton → ℕ
button_code MouseButton.left = 0
button_code MouseButton.middle = 1
button_code MouseButton.right = 2
button_code MouseButton.wheel_up = 64
button_code MouseButton.wheel_down = 65
button_code MouseButton.none = 3

abbrev bit : Bool → ℕ → ℕ
bit b v = if b then v else 0

motion_code : MouseAction → ℕ
motion_code MouseAction.move = 32
motion_code _ = 0

-- The final byte tells a release from the rest.
abbrev pub is_press : MouseAction → Bool
is_press MouseAction.release = false
is_press _ = true

code : MouseButton → MouseAction → Bool → Bool → Bool → ℕ
unfolding button_code motion_code
code button action shift alt ctrl =
    button_code button + bit shift 4 + bit alt 8 + bit ctrl 16 + motion_code action

unfoldable pub sgr_code : MouseInput → ℕ
unfolding code
sgr_code m = code m.button m.action m.modifiers.shift m.modifiers.alt m.modifiers.ctrl

module _ (action : MouseAction) (shift alt ctrl : Bool) where
  code-button : (button : MouseButton) → sgr_button (code button action shift alt ctrl) ≡ button
  unfolding sgr_button code
  code-button MouseButton.left = ground arith
  code-button _ = ground arith

  code-action :
      (button : MouseButton)
      → sgr_action (code button action shift alt ctrl) (is_press action) ≡ action
  unfolding sgr_action code
  code-action MouseButton.left = ground arith
  code-action _ = ground arith

  code-modifiers :
      (button : MouseButton)
      → sgr_modifiers (code button action shift alt ctrl)
        ≡ record no_modifiers { shift = shift; alt = alt; ctrl = ctrl }
  unfolding sgr_modifiers code
  code-modifiers MouseButton.left = ground arith
  code-modifiers _ = ground arith

-- The text between `<` and the final byte.
unfoldable pub sgr_params : MouseInput → List ℕ
sgr_params m = decimal (sgr_code m) ++ b';' ∷ (decimal m.col ++ b';' ∷ decimal m.row)

-- What the protocol can say: 16-bit coordinates, and of the modifiers only these three.
pub record IsReportable (m : MouseInput) : Type 0 where
  pub col_fits : m.col ≤ u16_max
  pub row_fits : m.row ≤ u16_max
  pub no_meta : m.modifiers.meta ≡ false
  pub no_shift_lock : m.modifiers.shift_lock ≡ false
  pub no_num_lock : m.modifiers.num_lock ≡ false

sgr_mouse-sgr_code :
    (m : MouseInput) → IsReportable m → sgr_mouse (sgr_code m) m.col m.row (is_press m.action) ≡ m
unfolding sgr_mouse sgr_code
sgr_mouse-sgr_code m h =
    let mods = m.modifiers in
    ground (
      arith,
      code-button m.action mods.shift mods.alt mods.ctrl m.button,
      code-action m.action mods.shift mods.alt mods.ctrl m.button,
      code-modifiers m.action mods.shift mods.alt mods.ctrl m.button,
    )

abbrev IsAscii : ℕ → Type 0
IsAscii c = c < 0x80

from_utf8_at-ascii : (s : List ℕ) → All IsAscii s → from_utf8_at start s ≡ valid s
unfolding from_utf8_at
from_utf8_at-ascii [] h = refl
from_utf8_at-ascii (c ∷ s) h = ground (arith, from_utf8_at-ascii s h.1)

-- No byte of the parameters ends a control sequence.
abbrev pub IsReportByte : ℕ → Type 0
IsReportByte c = (48 ≤ c) × (c ≤ 59)

digits-IsReportByte : (s : List ℕ) → All IsDigit s → All IsReportByte s
digits-IsReportByte [] h = tt
digits-IsReportByte (c ∷ s) h = ((h.0.0, omega arith), digits-IsReportByte s h.1)

pub sgr_params-IsReportByte : (m : MouseInput) → All IsReportByte (sgr_params m)
unfolding sgr_params
sgr_params-IsReportByte m =
    All-append IsReportByte (decimal (sgr_code m)) _ (report_decimal (sgr_code m)) (
      (omega arith, omega arith),
      All-append IsReportByte (decimal m.col) _ (report_decimal m.col)
          ((omega arith, omega arith), report_decimal m.row),
    )
  where
    report_decimal : (n : ℕ) → All IsReportByte (decimal n)
    report_decimal n = digits-IsReportByte (decimal n) (decimal-IsDigit n)

IsReportByte-IsAscii : (s : List ℕ) → All IsReportByte s → All IsAscii s
IsReportByte-IsAscii [] h = tt
IsReportByte-IsAscii (c ∷ s) h = (omega arith, IsReportByte-IsAscii s h.1)

split-sgr_params :
    (m : MouseInput)
    → split b';' (sgr_params m) ≡ decimal (sgr_code m) ∷ decimal m.col ∷ decimal m.row ∷ []
unfolding sgr_params
split-sgr_params m =
    split-append (decimal (sgr_code m)) _ (decimal-IsDigit (sgr_code m))
    ∙ ap (λ l. decimal (sgr_code m) ∷ l)
        (split-append (decimal m.col) _ (decimal-IsDigit m.col)
          ∙ ap (λ l. decimal m.col ∷ l) (split-last (decimal m.row) (decimal-IsDigit m.row)))

sgr_code-le : (m : MouseInput) → sgr_code m ≤ u32_max
unfolding sgr_code button_code motion_code
sgr_code-le m = ground arith

-- `parse_sgr` reads the parameters of a report, with the press that its final byte says, back as the
-- mouse input reported: button, action, modifiers and coordinates.
pub parse_sgr-sgr_params :
    (m : MouseInput) → IsReportable m → parse_sgr (sgr_params m) (is_press m.action) ≡ some m
unfolding parse_sgr
parse_sgr-sgr_params m h = ground (
  arith,
  from_utf8_at-ascii (sgr_params m)
      (IsReportByte-IsAscii (sgr_params m) (sgr_params-IsReportByte m)),
  split-sgr_params m,
  parse_uint-decimal u32_max (sgr_code m) (sgr_code-le m),
  parse_uint-decimal u16_max m.col h.col_fits,
  parse_uint-decimal u16_max m.row h.row_fits,
  sgr_mouse-sgr_code m h,
)

sgr_code-lt : (m : MouseInput) → sgr_code m < 100000
unfolding sgr_code button_code motion_code
sgr_code-lt m = ground arith

pub length-sgr_params : (m : MouseInput) → IsReportable m → length (sgr_params m) ≤ 17
unfolding sgr_params
length-sgr_params m h = omega (
  arith,
  length-append (decimal (sgr_code m)) (b';' ∷ (decimal m.col ++ b';' ∷ decimal m.row)),
  length-append (decimal m.col) (b';' ∷ decimal m.row),
  length-decimal (sgr_code m) (sgr_code-lt m),
  length-decimal m.col (omega (arith, h.col_fits)),
  length-decimal m.row (omega (arith, h.row_fits)),
)
