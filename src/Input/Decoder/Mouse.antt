-- ===== src/Input/Decoder/Mouse.antt =====
-- A mouse report that arrives whole and in time is one mouse event.
use oxiterm.Common.{ℕ, Bool, if◌then◌else◌}

-- The event of a sequence that opens with ESC, `[` and `<` and ends as a mouse report does.
abbrev pub final_byte : Bool → ℕ
final_byte pressed = if pressed then b'M' else b'm'
