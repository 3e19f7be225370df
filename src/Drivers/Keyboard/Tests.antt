-- ===== src/Drivers/Keyboard/Tests.antt =====
-- The keyboard driver on typed bytes.
use aetheros_rust_project.Prelude.{ℕ, ◌≤◌, ◌<◌, ◌≡◌, refl, true, false, none, some, arith}
use aetheros_rust_project.Drivers.Keyboard.{
  char, enter, Statics, at_boot, initialize, on_interrupt, decode_scancode, decode_make,
  decode_printable, alpha,
}
use aetheros_rust_project.Drivers.Keyboard.Layout.{us_layout, decode_printable-us_layout}
use aetheros_rust_project.Drivers.Keyboard.Shift.{on_interrupt_event}

abbrev ready : Statics
ready = record { initialized = true; shift_pressed = false }

abbrev shifted : Statics
shifted = record { initialized = true; shift_pressed = true }

boots : initialize at_boot ≡ ready
unfolding initialize
boots = refl

ignores_early_keys : on_interrupt at_boot 0x2A ≡ (none, at_boot)
unfolding on_interrupt
ignores_early_keys = refl

types_enter : on_interrupt ready 0x1C ≡ (some enter, ready)
unfolding on_interrupt decode_scancode decode_make
types_enter = refl

types_q : (on_interrupt shifted 0x10).0 ≡ some (char b'Q')
unfolding on_interrupt decode_scancode decode_make decode_printable alpha
types_q = refl

types_exclamation : decode_printable true 0x02 ≡ some b'!'
unfolding decode_printable
types_exclamation = refl

decode_printable-us_layout_example : decode_printable true 0x02 ≡ us_layout true 0x02
decode_printable-us_layout_example = decode_printable-us_layout true 0x02 (omega arith)

abbrev space_key : ℕ
space_key = 0x39

on_interrupt_event_example :
    (shifted.initialized ≡ true)
    × ((on_interrupt shifted 0x10).1 ≡ shifted)
    × (0x10 < 0x80)
    × ((c : ℕ) → char b'Q' ≡ char c → (0x20 ≤ c) × (c ≤ 0x7E))
on_interrupt_event_example = on_interrupt_event shifted 0x10 (omega arith) types_q
