-- ===== src/Arch/Pit.antt =====
-- kernel/src/arch/x86_64/pit.rs: programming the interval timer.
pub mod Rate
mod Tests
use aetheros_rust_project.Prelude.{ℕ, ◌/◌, ◌%◌, min, max, List, [], ◌∷◌, bit_and}
use aetheros_rust_project.Arch.Serial.{PortWrite}

abbrev pub pit_base_frequency : ℕ
pit_base_frequency = 1_193_182

-- `(PIT_BASE_FREQUENCY / frequency_hz.max(19)).clamp(1, u16::MAX as u32) as u16`
unfoldable pub divisor : ℕ → ℕ
divisor frequency_hz = min (max (pit_base_frequency / max frequency_hz 19) 1) 65535 % 65536

-- `init`, as what it writes to the command port and to channel 0. The shift is a division.
unfoldable pub init : ℕ → List PortWrite
unfolding divisor
init frequency_hz =
    record { port = 0x43; value = 0x36 }
    ∷ record { port = 0x40; value = bit_and (divisor frequency_hz) 0xFF }
    ∷ record { port = 0x40; value = (divisor frequency_hz / 256) % 256 }
    ∷ []
