-- ===== src/Drivers/Keyboard/Layout.antt =====
-- The keys of kernel/src/drivers/keyboard.rs as the rows of a US keyboard.

use aetheros_rust_project.Prelude.{
  ℕ, ◌+◌, ◌-◌, ◌≤◌, ◌<◌, ◌≡◌, refl, ◌↔◌, Bool, true, false, ◌&&◌, ◌||◌, List, [], ◌∷◌, Option, none,
  some, arith, get_elem?, ltb, leb, ◌==◌, if◌then◌else◌, all_below, all_below_sound, Bool-cases,
  inl, inr,
}
use aetheros_rust_project.Prelude.Text.{Text, codes}
use aetheros_rust_project.Drivers.Keyboard.{decode_printable, alpha}

-- A row of keys: the scan code of the first, and the characters without and with Shift.
record Row : Type 0 where
  first : ℕ
  plain : Text
  shifted : Text

abbrev us_rows : List Row
us_rows =
    record { first = 0x02; plain = codes "1234567890-="; shifted = codes "!@#$%^&*()_+" }
    ∷ record { first = 0x10; plain = codes "qwertyuiop[]"; shifted = codes "QWERTYUIOP{}" }
    ∷ record { first = 0x1E; plain = codes "asdfghjkl;'`"; shifted = codes "ASDFGHJKL:\"~" }
    ∷ record { first = 0x2B; plain = codes "\\zxcvbnm,./"; shifted = codes "|ZXCVBNM<>?" }
    ∷ record { first = 0x39; plain = codes " "; shifted = codes " " }
    ∷ []

abbrev key_of : List Row → Bool → ℕ → Option ℕ
key_of [] shift scancode = none
key_of (row ∷ rows) shift scancode =
    let rest = key_of rows shift scancode in
    let keys = if shift then row.shifted else row.plain in
    if leb row.first scancode
    then elim (get_elem? keys (scancode - row.first)) [ some c ↦ some c | none ↦ rest ]
    else rest

abbrev pub us_layout : Bool → ℕ → Option ℕ
us_layout shift scancode = key_of us_rows shift scancode

abbrev same_key : Option ℕ → Option ℕ → Bool
same_key none none = true
same_key none (some b) = false
same_key (some a) none = false
same_key (some a) (some b) = a == b

same_key→eq : (a b : Option ℕ) → same_key a b ≡ true → a ≡ b
same_key→eq none none h = refl
same_key→eq none (some b) h = absurd (ground arith)
same_key→eq (some a) none h = absurd (ground arith)
same_key→eq (some a) (some b) h = ground arith

plain_keys : all_below 256 (λ k. same_key (decode_printable false k) (us_layout false k)) ≡ true
unfolding decode_printable alpha
plain_keys = refl

shifted_keys : all_below 256 (λ k. same_key (decode_printable true k) (us_layout true k)) ≡ true
unfolding decode_printable alpha
shifted_keys = refl

-- Each byte of a key in one of the four rows of characters of a US keyboard, and of its space bar, decodes to
-- the character that the key has there, with Shift or without; every other byte, those of the
-- keypad included, decodes to no character.
pub decode_printable-us_layout :
    (shift : Bool) (scancode : ℕ)
    → scancode < 256
    → decode_printable shift scancode ≡ us_layout shift scancode
decode_printable-us_layout false k small =
    same_key→eq (decode_printable false k) (us_layout false k) (
      all_below_sound 256 (λ k. same_key (decode_printable false k) (us_layout false k)) k
        plain_keys small)
decode_printable-us_layout true k small = same_key→eq (decode_printable true k) (us_layout true k) (
    all_below_sound 256 (λ k. same_key (decode_printable true k) (us_layout true k)) k shifted_keys
      small)

-- The keys of the 95 printable ASCII characters.
abbrev key_codes : List ℕ
key_codes =
    0x39 ∷ 0x02 ∷ 0x28 ∷ 0x04 ∷ 0x05 ∷ 0x06 ∷ 0x08 ∷ 0x28 ∷ 0x0A ∷ 0x0B ∷ 0x09 ∷ 0x0D ∷ 0x33 ∷ 0x0C
    ∷ 0x34 ∷ 0x35 ∷ 0x0B ∷ 0x02 ∷ 0x03 ∷ 0x04 ∷ 0x05 ∷ 0x06 ∷ 0x07 ∷ 0x08 ∷ 0x09 ∷ 0x0A ∷ 0x27
    ∷ 0x27 ∷ 0x33 ∷ 0x0D ∷ 0x34 ∷ 0x35 ∷ 0x03 ∷ 0x1E ∷ 0x30 ∷ 0x2E ∷ 0x20 ∷ 0x12 ∷ 0x21 ∷ 0x22
    ∷ 0x23 ∷ 0x17 ∷ 0x24 ∷ 0x25 ∷ 0x26 ∷ 0x32 ∷ 0x31 ∷ 0x18 ∷ 0x19 ∷ 0x10 ∷ 0x13 ∷ 0x1F ∷ 0x14
    ∷ 0x16 ∷ 0x2F ∷ 0x11 ∷ 0x2D ∷ 0x15 ∷ 0x2C ∷ 0x1A ∷ 0x2B ∷ 0x1B ∷ 0x07 ∷ 0x0C ∷ 0x29 ∷ 0x1E
    ∷ 0x30 ∷ 0x2E ∷ 0x20 ∷ 0x12 ∷ 0x21 ∷ 0x22 ∷ 0x23 ∷ 0x17 ∷ 0x24 ∷ 0x25 ∷ 0x26 ∷ 0x32 ∷ 0x31
    ∷ 0x18 ∷ 0x19 ∷ 0x10 ∷ 0x13 ∷ 0x1F ∷ 0x14 ∷ 0x16 ∷ 0x2F ∷ 0x11 ∷ 0x2D ∷ 0x15 ∷ 0x2C ∷ 0x1A
    ∷ 0x2B ∷ 0x1B ∷ 0x29 ∷ []

abbrev is_key_of : ℕ → Option ℕ → Bool
is_key_of k none = true
is_key_of k (some c) =
    leb 0x20 c && leb c 0x7E && same_key (get_elem? key_codes (c - 0x20)) (some k)

all_have_keys :
    all_below 256
      (λ k. is_key_of k (decode_printable false k) && is_key_of k (decode_printable true k))
    ≡ true
unfolding decode_printable alpha
all_have_keys = refl

abbrev is_typed : ℕ → Option ℕ → Bool
is_typed c none = false
is_typed c (some k) =
    same_key (decode_printable false k) (some c) || same_key (decode_printable true k) (some c)

all_are_typed : all_below 95 (λ i. is_typed (i + 0x20) (get_elem? key_codes i)) ≡ true
unfolding decode_printable alpha
all_are_typed = refl

codes_small :
    all_below 95 (λ i. elim (get_elem? key_codes i) [ none ↦ true | some k ↦ ltb k 256 ]) ≡ true
codes_small = refl

-- The key of a character is the one of the table.
key_of_char :
    (shift : Bool) (scancode : ℕ) {c : ℕ}
    → scancode < 256
    → decode_printable shift scancode ≡ some c
    → (0x20 ≤ c) × (c ≤ 0x7E) × (get_elem? key_codes (c - 0x20) ≡ some scancode)
key_of_char shift k {c} small e =
    let test : ℕ → Bool =
      λ k'. is_key_of k' (decode_printable false k') && is_key_of k' (decode_printable true k') in
    let both = all_below_sound 256 test k all_have_keys small in
    let mine : is_key_of k (decode_printable shift k) ≡ true = elim (Bool-cases shift) [
      | inl up ↦ rw up (ground (arith, both))
      | inr down ↦ rw down (ground (arith, both))
    ] in
    let this : is_key_of k (some c) ≡ true = rw e at mine in
    (
      ground arith,
      ground arith,
      same_key→eq (get_elem? key_codes (c - 0x20)) (some k) (ground arith),
    )

-- Two bytes that decode to one character, with Shift or without, are equal.
pub keys_differ :
    (shift shift' : Bool) (scancode scancode' : ℕ) {c : ℕ}
    → scancode < 256
    → scancode' < 256
    → decode_printable shift scancode ≡ some c
    → decode_printable shift' scancode' ≡ some c
    → scancode ≡ scancode'
keys_differ shift shift' k k' small small' e e' =
    let (lo, hi, mine) = key_of_char shift k small e in
    let (lo', hi', yours) = key_of_char shift' k' small' e' in ground (arith, mine, yours)

char_of_key :
    (c : ℕ) (key : Option ℕ)
    → is_typed c key ≡ true
    → (elim key [ none ↦ true | some k ↦ ltb k 256 ]) ≡ true
    → (shift : Bool) × (k : ℕ) × (k < 256) × (decode_printable shift k ≡ some c)
char_of_key c none h small = absurd (ground arith)
char_of_key c (some k) h small = elim (Bool-cases (same_key (decode_printable false k) (some c))) [
  | inl plain ↦ (false, k, ground arith, same_key→eq (decode_printable false k) (some c) plain)
  | inr other ↦
      (true, k, ground arith, same_key→eq (decode_printable true k) (some c) (ground arith))
]

-- The characters that bytes decode to, with Shift or without, are those of printable ASCII.
pub decode_printable_iff :
    (c : ℕ)
    → ((shift : Bool) × (scancode : ℕ) × (scancode < 256)
        × (decode_printable shift scancode ≡ some c))
      ↔ ((0x20 ≤ c) × (c ≤ 0x7E))
decode_printable_iff c = (
  (λ (shift, k, small, e). let (lo, hi, mine) = key_of_char shift k small e in (lo, hi)),
  (λ (lo, hi).
      let back : (c - 0x20) + 0x20 ≡ c = omega arith in
      let typed =
        all_below_sound 95 (λ i. is_typed (i + 0x20) (get_elem? key_codes i)) (c - 0x20)
          all_are_typed (omega arith) in
      let small =
        all_below_sound 95 (λ i. elim (get_elem? key_codes i) [ none ↦ true | some k ↦ ltb k 256 ])
          (c - 0x20) codes_small (omega arith) in
      char_of_key c (get_elem? key_codes (c - 0x20)) (rw back at typed) small),
)
