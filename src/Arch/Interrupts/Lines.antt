-- ===== src/Arch/Interrupts/Lines.antt =====
-- The lines of the two interrupt controllers after `init` of interrupts.rs, and their handlers.
use mathlib.Core.Option
use aetheros_rust_project.Prelude.{
  ℕ, ◌^◌, ◌/◌, ◌%◌, Bool, true, false, not, ◌||◌, List, [], ◌∷◌, Option, none, some, bit_and,
  get_or, ltb, ◌==◌, if◌then◌else◌,
}
use aetheros_rust_project.Arch.Serial.{PortWrite}
use aetheros_rust_project.Arch.Pit
use aetheros_rust_project.Arch.Idt.{
  Handler, Entry, build_idt, timer_interrupt_handler, keyboard_interrupt_handler,
}

-- What a port holds after some writes.
abbrev pub last_write : ℕ → ℕ → List PortWrite → ℕ
last_write port held [] = held
last_write port held (w ∷ ws) = last_write port (if w.port == port then w.value else held) ws

-- A line is open if its bit of the mask is 0.
abbrev pub is_open : ℕ → ℕ → Bool
is_open mask line = (mask / 2 ^ line) % 2 == 0

-- The handler at a vector.
abbrev pub handler_at : ℕ → Option Handler
handler_at vector = Option.map (λ (e : Entry). e.handler) (get_or build_idt vector none)

abbrev pub expected_handler : ℕ → Option Handler
expected_handler line =
    if line == 0
    then some timer_interrupt_handler
    else if line == 1
    then some keyboard_interrupt_handler
    else none

same : Bool → Bool → Bool
same true b = b
same false b = not b

opens_two : ℕ → ℕ → Bool
unfolding same
opens_two mask line = same (is_open (bit_and mask 0xFC) line) (ltb line 2 || is_open mask line)
