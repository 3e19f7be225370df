-- ===== src/Xtask/Keys/Documented.antt =====
-- The keys that the xtask names, as QEMU documents them, and the kernel's keyboard on their bytes.
use mathlib.Core.Option
use aetheros_rust_project.Prelude.{
  ℕ, ◌+◌, ◌<◌, ◌≡◌, refl, Bool, true, false, not, ◌||◌, List, [], ◌∷◌, Option, none, some, arith,
  ◌==◌, if◌then◌else◌, bytes_eq, all_below, all_below_sound, Option-cases, inl, inr,
}
use aetheros_rust_project.Prelude.Text.{Text, codes}
use aetheros_rust_project.Prelude.Str.{strip_prefix}
use aetheros_rust_project.Drivers.Keyboard.{
  KeyEvent, char, enter, backspace, decode_scancode, decode_make, decode_printable, alpha,
}
use aetheros_rust_project.Xtask.{Result, err, ok}
use aetheros_rust_project.Xtask.Keys.{qemu_sendkey_name}

-- QEMU's names of keys, with the set 1 scan code that a PS/2 keyboard sends for each.
abbrev key_codes : List (Text × ℕ)
key_codes =
    (codes "1", 0x02)
    ∷ (codes "2", 0x03)
    ∷ (codes "3", 0x04)
    ∷ (codes "4", 0x05)
    ∷ (codes "5", 0x06)
    ∷ (codes "6", 0x07)
    ∷ (codes "7", 0x08)
    ∷ (codes "8", 0x09)
    ∷ (codes "9", 0x0A)
    ∷ (codes "0", 0x0B)
    ∷ (codes "minus", 0x0C)
    ∷ (codes "equal", 0x0D)
    ∷ (codes "q", 0x10)
    ∷ (codes "w", 0x11)
    ∷ (codes "e", 0x12)
    ∷ (codes "r", 0x13)
    ∷ (codes "t", 0x14)
    ∷ (codes "y", 0x15)
    ∷ (codes "u", 0x16)
    ∷ (codes "i", 0x17)
    ∷ (codes "o", 0x18)
    ∷ (codes "p", 0x19)
    ∷ (codes "bracket_left", 0x1A)
    ∷ (codes "bracket_right", 0x1B)
    ∷ (codes "ret", 0x1C)
    ∷ (codes "a", 0x1E)
    ∷ (codes "s", 0x1F)
    ∷ (codes "d", 0x20)
    ∷ (codes "f", 0x21)
    ∷ (codes "g", 0x22)
    ∷ (codes "h", 0x23)
    ∷ (codes "j", 0x24)
    ∷ (codes "k", 0x25)
    ∷ (codes "l", 0x26)
    ∷ (codes "semicolon", 0x27)
    ∷ (codes "apostrophe", 0x28)
    ∷ (codes "backslash", 0x2B)
    ∷ (codes "z", 0x2C)
    ∷ (codes "x", 0x2D)
    ∷ (codes "c", 0x2E)
    ∷ (codes "v", 0x2F)
    ∷ (codes "b", 0x30)
    ∷ (codes "n", 0x31)
    ∷ (codes "m", 0x32)
    ∷ (codes "comma", 0x33)
    ∷ (codes "dot", 0x34)
    ∷ (codes "slash", 0x35)
    ∷ (codes "spc", 0x39)
    ∷ []

abbrev code_of : List (Text × ℕ) → Text → Option ℕ
code_of [] name = none
code_of ((n, code) ∷ table) name = if bytes_eq n name then some code else code_of table name

-- What `sendkey` makes the keyboard send: the keys go down in the order of their names, and up.
abbrev pub documented : Text → Option (List ℕ)
documented name = elim (strip_prefix (codes "shift-") name) [
  | none ↦ Option.map (λ c. c ∷ (c + 0x80) ∷ []) (code_of key_codes name)
  | some plain ↦ Option.map (λ c. 0x2A ∷ c ∷ (c + 0x80) ∷ 0xAA ∷ []) (code_of key_codes plain)
]

abbrev pub prepend : Option KeyEvent → List KeyEvent × Bool → List KeyEvent × Bool
prepend none rest = rest
prepend (some event) rest = (event ∷ rest.0, rest.1)

-- The events of a sequence of bytes, and the state of shift behind it.
abbrev pub events : Bool → List ℕ → List KeyEvent × Bool
events shift [] = ([], shift)
events shift (b ∷ bs) = let r = decode_scancode shift b in prepend r.0 (events r.1 bs)

abbrev is_char : ℕ → List KeyEvent × Bool → Bool
is_char ch (char c ∷ [], false) = c == ch
is_char ch r = false

abbrev elem : ℕ → Text → Bool
elem ch [] = false
elem ch (c ∷ cs) = (c == ch) || elem ch cs

-- The characters that a command can have.
abbrev pub is_typable : ℕ → Bool
is_typable ch =
    elem ch (codes "abcdefghijklmnopqrstuvwxyzABCDEFGHIJKLMNOPQRSTUVWXYZ0123456789 -=[];',./\\")

-- The key of a character is one that QEMU knows, and types just that character; there is one for
-- every character that a command can have.
abbrev types_char : ℕ → Result Text → Bool
types_char ch (err e) = not (is_typable ch)
types_char ch (ok name) = elim (documented name) [
  | none ↦ false
  | some bytes ↦ is_char ch (events false bytes)
]

all_type :
    (show_char : ℕ → Text)
    → all_below 128 (λ ch. types_char ch (qemu_sendkey_name show_char ch)) ≡ true
unfolding qemu_sendkey_name decode_scancode decode_make decode_printable alpha strip_prefix
all_type show_char = refl

pub typable-lt : (ch : ℕ) → is_typable ch ≡ true → ch < 128
typable-lt ch h = ground arith

is_char-eq : (ch : ℕ) (r : List KeyEvent × Bool) → is_char ch r ≡ true → r ≡ (char ch ∷ [], false)
is_char-eq ch ([], s) h = cc
is_char-eq ch (char c ∷ [], false) h = ground arith
is_char-eq ch (char c ∷ [], true) h = cc
is_char-eq ch (char c ∷ d ∷ es, s) h = cc
is_char-eq ch (enter ∷ es, s) h = cc
is_char-eq ch (backspace ∷ es, s) h = cc

types_char-ok :
    (ch : ℕ) (name : Result Text)
    → is_typable ch ≡ true
    → types_char ch name ≡ true
    → (n : Text) × (bytes : List ℕ) × (name ≡ ok n)
      × (documented n ≡ some bytes)
      × (events false bytes ≡ (char ch ∷ [], false))
unfolding strip_prefix
types_char-ok ch (err e) can h = absurd (ground arith)
types_char-ok ch (ok n) can h = elim (Option-cases (documented n)) [
  | inl unknown ↦ absurd (let q = rw unknown at h in cc)
  | inr (bytes, known) ↦ (n, bytes, refl, known, is_char-eq ch (events false bytes) (rw known at h))
]

-- A character that a command can have is typed by a key that QEMU documents.
pub types_typable :
    (show_char : ℕ → Text) (ch : ℕ)
    → is_typable ch ≡ true
    → (n : Text) × (bytes : List ℕ) × (qemu_sendkey_name show_char ch ≡ ok n)
      × (documented n ≡ some bytes)
      × (events false bytes ≡ (char ch ∷ [], false))
types_typable show_char ch can = types_char-ok ch (qemu_sendkey_name show_char ch) can (
    all_below_sound 128 (λ c. types_char c (qemu_sendkey_name show_char c)) ch (all_type show_char)
      (typable-lt ch can))
