-- ===== src/Prelude/Str.antt =====
-- What the program uses of Rust's `str`: UTF-8 validation, white space, splitting.
use mathlib.Core.List.{reverse}
use mathlib.Core.Option
use Prim.Native.Nat.{ℕ, zero, suc}
use mathlib.Core.Bool.{Bool, true, false, ◌&&◌, ◌||◌}
use mathlib.Core.Option.{Option, none, some}
use mathlib.Core.List.{[], ◌∷◌}
use aetheros_rust_project.Prelude.Text.{Text}
use aetheros_rust_project.Prelude.Tests.{leb, ◌==◌, if◌then◌else◌}
use aetheros_rust_project.Prelude.Lists.{length}

abbrev pub between : ℕ → ℕ → ℕ → Bool
between lo hi b = leb lo b && leb b hi

-- What a valid sequence still wants: nothing, or continuation bytes, the next of which may be
-- restricted (after 0xE0, 0xED, 0xF0 and 0xF4).
pub data Utf8State : Type 0 where
  start one two three after_e0 after_ed after_f0 after_f4 : Utf8State

abbrev expect : Bool → Utf8State → Option Utf8State
expect true s = some s
expect false s = none

-- Table 3-7 of the Unicode standard, a byte at a time.
abbrev pub utf8_step : Utf8State → ℕ → Option Utf8State
utf8_step start b =
    if leb b 0x7f
    then some start
    else if between 0xc2 0xdf b
    then some one
    else if b == 0xe0
    then some after_e0
    else if b == 0xed
    then some after_ed
    else if between 0xe1 0xef b
    then some two
    else if b == 0xf0
    then some after_f0
    else if between 0xf1 0xf3 b
    then some three
    else if b == 0xf4
    then some after_f4
    else none
utf8_step one b = expect (between 0x80 0xbf b) start
utf8_step two b = expect (between 0x80 0xbf b) one
utf8_step three b = expect (between 0x80 0xbf b) two
utf8_step after_e0 b = expect (between 0xa0 0xbf b) one
utf8_step after_ed b = expect (between 0x80 0x9f b) one
utf8_step after_f0 b = expect (between 0x90 0xbf b) two
utf8_step after_f4 b = expect (between 0x80 0x8f b) two

unfoldable pub utf8_run : Utf8State → Text → Bool
utf8_run start [] = true
utf8_run s [] = false
utf8_run s (b ∷ bs) = elim (utf8_step s b) [ none ↦ false | some s' ↦ utf8_run s' bs ]

-- The bytes are those of a `str`.
unfoldable pub is_str : Text → Bool
unfolding utf8_run
is_str bs = utf8_run start bs

-- `str::from_utf8(bytes).ok()`
abbrev pub from_utf8 : Text → Option Text
from_utf8 bs = if is_str bs then some bs else none

-- `char::is_whitespace` on the UTF-8 bytes of a character.
abbrev pub white1 : ℕ → Bool
white1 a = between 9 13 a || a == 32

abbrev pub white2 : ℕ → ℕ → Bool
white2 a b = a == 0xc2 && (b == 0x85 || b == 0xa0)

abbrev pub white3 : ℕ → ℕ → ℕ → Bool
white3 a b c =
    (a == 0xe1 && b == 0x9a && c == 0x80)
    || (a == 0xe2 && b == 0x80 && (between 0x80 0x8a c || c == 0xa8 || c == 0xa9 || c == 0xaf))
    || (a == 0xe2 && b == 0x81 && c == 0x9f)
    || (a == 0xe3 && b == 0x80 && c == 0x80)

-- The text after a white-space character at its start, and, of the bytes in reverse, before one at
-- its end.
unfoldable pub after_white : Text → Option Text
after_white [] = none
after_white (a ∷ []) = if white1 a then some [] else none
after_white (a ∷ b ∷ []) = if white1 a then some (b ∷ []) else if white2 a b then some [] else none
after_white (a ∷ b ∷ c ∷ r) =
    if white1 a
    then some (b ∷ c ∷ r)
    else if white2 a b
    then some (c ∷ r)
    else if white3 a b c
    then some r
    else none

unfoldable pub after_white_rev : Text → Option Text
after_white_rev [] = none
after_white_rev (a ∷ []) = if white1 a then some [] else none
after_white_rev (a ∷ b ∷ []) =
    if white1 a then some (b ∷ []) else if white2 b a then some [] else none
after_white_rev (a ∷ b ∷ c ∷ r) =
    if white1 a
    then some (b ∷ c ∷ r)
    else if white2 b a
    then some (c ∷ r)
    else if white3 c b a
    then some r
    else none

-- Each round takes a byte at least, so the length is fuel enough.
unfoldable pub strip : (Text → Option Text) → ℕ → Text → Text
strip f zero s = s
strip f (suc n) s = elim (f s) [ none ↦ s | some r ↦ strip f n r ]

unfoldable pub trim_start : Text → Text
unfolding strip after_white
trim_start s = strip after_white (length s) s

unfoldable pub trim_end : Text → Text
unfolding strip after_white_rev
trim_end s = reverse (strip after_white_rev (length s) (reverse s))

-- `str::trim`
unfoldable pub trim : Text → Text
unfolding trim_start trim_end
trim s = trim_end (trim_start s)

-- `s.strip_prefix(p)`
unfoldable pub strip_prefix : Text → Text → Option Text
strip_prefix [] s = some s
strip_prefix (p ∷ ps) [] = none
strip_prefix (p ∷ ps) (b ∷ bs) = if p == b then strip_prefix ps bs else none

-- `s.split_once(c)` for an ASCII character
unfoldable pub split_once : ℕ → Text → Option (Text × Text)
split_once c [] = none
split_once c (b ∷ bs) =
    if b == c
    then some ([], bs)
    else Option.map (λ (p : Text × Text). (b ∷ p.0, p.1)) (split_once c bs)
