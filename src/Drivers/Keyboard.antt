-- ===== src/Drivers/Keyboard.antt =====
-- kernel/src/drivers/keyboard.rs: PS/2 set 1 scan codes to key events. A `char` is its code.
pub mod Layout
pub mod Shift
mod Tests
use mathlib.Core.Option
use aetheros_rust_project.Prelude.{
  ℕ, ◌-◌, Bool, true, false, not, ◌&&◌, ◌||◌, Option, none, some, bit_and, leb, ◌==◌, if◌then◌else◌,
}

pub data KeyEvent : Type 0 where
  char : ℕ → KeyEvent
  enter backspace : KeyEvent

-- `INITIALIZED` and `SHIFT_PRESSED`
pub record Statics : Type 0 where
  pub initialized : Bool
  pub shift_pressed : Bool

abbrev pub at_boot : Statics
at_boot = record { initialized = false; shift_pressed = false }

unfoldable pub initialize : Statics → Statics
initialize s = record s { initialized = true }

-- `char::to_ascii_uppercase`
abbrev to_ascii_uppercase : ℕ → ℕ
to_ascii_uppercase c = if leb b'a' c && leb c b'z' then c - 32 else c

unfoldable pub alpha : ℕ → Bool → ℕ
alpha lower shift = if shift then to_ascii_uppercase lower else lower

unfoldable pub decode_printable : Bool → ℕ → Option ℕ
unfolding alpha
decode_printable shift scancode =
    if scancode == 0x02
    then some (if shift then b'!' else b'1')
    else if scancode == 0x03
    then some (if shift then b'@' else b'2')
    else if scancode == 0x04
    then some (if shift then b'#' else b'3')
    else if scancode == 0x05
    then some (if shift then b'$' else b'4')
    else if scancode == 0x06
    then some (if shift then b'%' else b'5')
    else if scancode == 0x07
    then some (if shift then b'^' else b'6')
    else if scancode == 0x08
    then some (if shift then b'&' else b'7')
    else if scancode == 0x09
    then some (if shift then b'*' else b'8')
    else if scancode == 0x0A
    then some (if shift then b'(' else b'9')
    else if scancode == 0x0B
    then some (if shift then b')' else b'0')
    else if scancode == 0x0C
    then some (if shift then b'_' else b'-')
    else if scancode == 0x0D
    then some (if shift then b'+' else b'=')
    else if scancode == 0x10
    then some (alpha b'q' shift)
    else if scancode == 0x11
    then some (alpha b'w' shift)
    else if scancode == 0x12
    then some (alpha b'e' shift)
    else if scancode == 0x13
    then some (alpha b'r' shift)
    else if scancode == 0x14
    then some (alpha b't' shift)
    else if scancode == 0x15
    then some (alpha b'y' shift)
    else if scancode == 0x16
    then some (alpha b'u' shift)
    else if scancode == 0x17
    then some (alpha b'i' shift)
    else if scancode == 0x18
    then some (alpha b'o' shift)
    else if scancode == 0x19
    then some (alpha b'p' shift)
    else if scancode == 0x1A
    then some (if shift then b'{' else b'[')
    else if scancode == 0x1B
    then some (if shift then b'}' else b']')
    else if scancode == 0x1E
    then some (alpha b'a' shift)
    else if scancode == 0x1F
    then some (alpha b's' shift)
    else if scancode == 0x20
    then some (alpha b'd' shift)
    else if scancode == 0x21
    then some (alpha b'f' shift)
    else if scancode == 0x22
    then some (alpha b'g' shift)
    else if scancode == 0x23
    then some (alpha b'h' shift)
    else if scancode == 0x24
    then some (alpha b'j' shift)
    else if scancode == 0x25
    then some (alpha b'k' shift)
    else if scancode == 0x26
    then some (alpha b'l' shift)
    else if scancode == 0x27
    then some (if shift then b':' else b';')
    else if scancode == 0x28
    then some (if shift then b'"' else b'\'')
    else if scancode == 0x29
    then some (if shift then b'~' else b'`')
    else if scancode == 0x2B
    then some (if shift then b'|' else b'\\')
    else if scancode == 0x2C
    then some (alpha b'z' shift)
    else if scancode == 0x2D
    then some (alpha b'x' shift)
    else if scancode == 0x2E
    then some (alpha b'c' shift)
    else if scancode == 0x2F
    then some (alpha b'v' shift)
    else if scancode == 0x30
    then some (alpha b'b' shift)
    else if scancode == 0x31
    then some (alpha b'n' shift)
    else if scancode == 0x32
    then some (alpha b'm' shift)
    else if scancode == 0x33
    then some (if shift then b'<' else b',')
    else if scancode == 0x34
    then some (if shift then b'>' else b'.')
    else if scancode == 0x35
    then some (if shift then b'?' else b'/')
    else if scancode == 0x39
    then some b' '
    else none

-- The last three arms of `decode_scancode`.
unfoldable pub decode_make : Bool → ℕ → Option KeyEvent
unfolding decode_printable
decode_make shift scancode =
    if scancode == 0x1C
    then some enter
    else if scancode == 0x0E
    then some backspace
    else Option.map char (decode_printable shift scancode)

-- The event, and `SHIFT_PRESSED` afterwards.
unfoldable pub decode_scancode : Bool → ℕ → Option KeyEvent × Bool
unfolding decode_make
decode_scancode shift scancode =
    if scancode == 0x2A || scancode == 0x36
    then (none, true)
    else if scancode == 0xAA || scancode == 0xB6
    then (none, false)
    else if not (bit_and scancode 0x80 == 0)
    then (none, shift)
    else (decode_make shift scancode, shift)

-- `on_interrupt` with the byte of port 0x60: the event for the shell, if there is one.
unfoldable pub on_interrupt : Statics → ℕ → Option KeyEvent × Statics
unfolding decode_scancode
on_interrupt s scancode =
    if not s.initialized
    then (none, s)
    else let r = decode_scancode s.shift_pressed scancode in (r.0, record s { shift_pressed = r.1 })
