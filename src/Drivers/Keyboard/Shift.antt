-- ===== src/Drivers/Keyboard/Shift.antt =====
-- Sequences of keyboard interrupts of kernel/src/drivers/keyboard.rs: the events that reach the
-- shell, and the Shift flag.

use aetheros_rust_project.Prelude.{
  ℕ, ◌≤◌, ◌<◌, ◌≡◌, refl, ◌∙◌, ap, Bool, true, false, not, ◌||◌, List, [], ◌∷◌, ◌++◌, some, arith,
  bit_and, ltb, ◌==◌, if◌then◌else◌, all_below, all_below_sound, Option-cases, inl, inr, All,
}
use aetheros_rust_project.Drivers.Keyboard.{
  KeyEvent, char, Statics, decode_printable, decode_make, decode_scancode, on_interrupt,
}
use aetheros_rust_project.Drivers.Keyboard.Layout.{decode_printable_iff}

-- The driver's state after an interrupt for each of the bytes.
unfoldable pub interrupts : Statics → List ℕ → Statics
interrupts s [] = s
interrupts s (k ∷ ks) = interrupts (on_interrupt s k).1 ks

abbrev pub is_press : ℕ → Bool
is_press k = k == 0x2A || k == 0x36

abbrev pub is_shift : ℕ → Bool
is_shift k = is_press k || k == 0xAA || k == 0xB6

interrupts-append :
    (s : Statics) (ks ls : List ℕ) → interrupts s (ks ++ ls) ≡ interrupts (interrupts s ks) ls
unfolding interrupts
interrupts-append s [] ls = refl
interrupts-append s (k ∷ ks) ls = interrupts-append (on_interrupt s k).1 ks ls

on_interrupt-initialized : (s : Statics) (k : ℕ) → (on_interrupt s k).1.initialized ≡ s.initialized
unfolding on_interrupt
on_interrupt-initialized s k = ground arith

interrupts-initialized : (s : Statics) (ks : List ℕ) → (interrupts s ks).initialized ≡ s.initialized
unfolding interrupts
interrupts-initialized s [] = refl
interrupts-initialized s (k ∷ ks) =
    interrupts-initialized (on_interrupt s k).1 ks ∙ on_interrupt-initialized s k

on_interrupt-shift :
    (s : Statics) (k : ℕ)
    → s.initialized ≡ true
    → (on_interrupt s k).1.shift_pressed ≡ (if is_shift k then is_press k else s.shift_pressed)
unfolding on_interrupt
on_interrupt-shift s k ready = ground arith

interrupts-others :
    (s : Statics) (ks : List ℕ)
    → s.initialized ≡ true
    → All (λ k. is_shift k ≡ false) ks
    → (interrupts s ks).shift_pressed ≡ s.shift_pressed
unfolding interrupts
interrupts-others s [] ready others = refl
interrupts-others s (k ∷ ks) ready others =
    interrupts-others (on_interrupt s k).1 ks (on_interrupt-initialized s k ∙ ready) others.1
    ∙ on_interrupt-shift s k ready
    ∙ rw (others.0) refl

-- Once the driver is initialized, the last Shift code among the bytes says whether Shift counts as
-- pressed: it does after a make code, and not after a break code.
pub interrupts_shift :
    (s : Statics) (before : List ℕ) (code : ℕ) (after : List ℕ)
    → s.initialized ≡ true
    → is_shift code ≡ true
    → All (λ k. is_shift k ≡ false) after
    → (interrupts s (before ++ code ∷ after)).shift_pressed ≡ is_press code
unfolding interrupts
interrupts_shift s before code after ready shift others =
    let s₁ = interrupts s before in
    let ready₁ = interrupts-initialized s before ∙ ready in
    ap (λ (r : Statics). r.shift_pressed) (interrupts-append s before (code ∷ after))
    ∙ interrupts-others (on_interrupt s₁ code).1 after (on_interrupt-initialized s₁ code ∙ ready₁)
        others
    ∙ on_interrupt-shift s₁ code ready₁
    ∙ rw shift refl

-- A break code has its highest bit set.
high_bit_table :
    all_below 256 (λ k. if bit_and k 0x80 == 0 then ltb k 0x80 else not (ltb k 0x80)) ≡ true
high_bit_table = refl

high_bit : (k : ℕ) → k < 256 → (bit_and k 0x80 == 0) ≡ true → k < 0x80
high_bit k small clear =
    let row =
      all_below_sound 256 (λ j. if bit_and j 0x80 == 0 then ltb j 0x80 else not (ltb j 0x80)) k
        high_bit_table small in
    ground (arith, row)

decode_make-char :
    (shift : Bool) (k : ℕ) {c : ℕ}
    → decode_make shift k ≡ some (char c)
    → decode_printable shift k ≡ some c
unfolding decode_make
decode_make-char shift k {c} e = elim (Option-cases (decode_printable shift k)) [
  | inl nothing ↦ absurd (ground (arith, nothing))
  | inr (d, found) ↦ ground (arith, found)
]

on_interrupt-some :
    (s : Statics) (k : ℕ) {e : KeyEvent}
    → k < 256
    → (on_interrupt s k).0 ≡ some e
    → (s.initialized ≡ true)
      × ((on_interrupt s k).1 ≡ s)
      × (decode_make s.shift_pressed k ≡ some e)
      × ((bit_and k 0x80 == 0) ≡ true)
unfolding on_interrupt decode_scancode
on_interrupt-some s k {e} small h = ground arith

-- For a byte from the port: an event reaches the shell only once the driver is initialized, only from a make code, and with
-- the Shift flag as it was; its character, if it has one, is printable ASCII.
pub on_interrupt_event :
    (s : Statics) (scancode : ℕ) {e : KeyEvent}
    → scancode < 256
    → (on_interrupt s scancode).0 ≡ some e
    → (s.initialized ≡ true)
      × ((on_interrupt s scancode).1 ≡ s)
      × (scancode < 0x80)
      × ((c : ℕ) → e ≡ char c → (0x20 ≤ c) × (c ≤ 0x7E))
on_interrupt_event s k {e} small h =
    let (ready, same, made, clear) = on_interrupt-some s k small h in
    (
      ready,
      same,
      high_bit k small clear,
      (λ c typed.
          let typing : decode_make s.shift_pressed k ≡ some (char c) = made ∙ ap some typed in
          (decode_printable_iff c).0
            (s.shift_pressed, k, small, decode_make-char s.shift_pressed k typing)),
    )
