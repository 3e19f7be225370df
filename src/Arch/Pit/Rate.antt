-- ===== src/Arch/Pit/Rate.antt =====
-- The rate that kernel/src/arch/x86_64/pit.rs sets.
use native.Mathlib.Nat.{div-lt_iff_lt-mul, le-div_iff_mul-le, div-mul-le_self, lt-div-mul-add}
use aetheros_rust_project.Prelude.{
  ℕ, ◌+◌, ◌*◌, ◌/◌, ◌%◌, ◌≤◌, ◌<◌, ◌≡◌, refl, ◌∙◌, max, [], ◌∷◌, arith, bit_and,
}
use aetheros_rust_project.Prelude.Bits.{bit_and_low_byte}
use aetheros_rust_project.Arch.Pit.{divisor, init, pit_base_frequency}

divisor_range : (f : ℕ) → (1 ≤ divisor f) × (divisor f ≤ 65535)
unfolding divisor
divisor_range f = omega arith

-- Where neither bound of the clamp applies, the divisor is the quotient rounded down.
divisor_quotient : (f : ℕ) → 19 ≤ f → f ≤ pit_base_frequency → divisor f ≡ pit_base_frequency / f
unfolding divisor
divisor_quotient f lo hi =
    let same : max f 19 ≡ f = omega arith in
    let positive : 0 < f = omega arith in
    let small : pit_base_frequency / f < 65536 = (div-lt_iff_lt-mul positive).1 (omega arith) in
    let some_ticks : 1 ≤ pit_base_frequency / f = (le-div_iff_mul-le positive).1 (omega arith) in
    rw same (omega (arith, small, some_ticks))

-- What `init` sends to channel 0 are the two bytes of a divisor between 1 and 65535, the low one
-- first.
init_bytes :
    (f : ℕ)
    → (low : ℕ) × (high : ℕ) × (init f
        ≡ record { port = 0x43; value = 0x36 }
          ∷ record { port = 0x40; value = low }
          ∷ record { port = 0x40; value = high }
          ∷ [])
      × (low < 256)
      × (high < 256)
      × (low + 256 * high ≡ divisor f)
unfolding init
init_bytes f = (
  bit_and (divisor f) 0xFF,
  divisor f / 256 % 256,
  refl,
  omega (arith, bit_and_low_byte (divisor f)),
  omega arith,
  omega (arith, bit_and_low_byte (divisor f), divisor_range f),
)

-- For a frequency from 19 Hz up to that of the oscillator: after the command byte, `init` sends the
-- two bytes of a divisor, the low one first, and the divisor is the greatest with which the timer
-- ticks no slower than asked.
pub init_rate :
    (f : ℕ)
    → 19 ≤ f
    → f ≤ pit_base_frequency
    → (low : ℕ) × (high : ℕ) × (init f
        ≡ record { port = 0x43; value = 0x36 }
          ∷ record { port = 0x40; value = low }
          ∷ record { port = 0x40; value = high }
          ∷ [])
      × (low < 256)
      × (high < 256)
      × ((low + 256 * high) * f ≤ pit_base_frequency)
      × (pit_base_frequency < (low + 256 * high) * f + f)
init_rate f lo hi =
    let (low, high, sent, small, small', sum) = init_bytes f in
    let d : low + 256 * high ≡ pit_base_frequency / f = sum ∙ divisor_quotient f lo hi in
    (
      low,
      high,
      sent,
      small,
      small',
      rw d (div-mul-le_self pit_base_frequency f),
      rw d (lt-div-mul-add (let positive : 0 < f = omega arith in positive)),
    )
