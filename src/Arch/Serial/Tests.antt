-- ===== src/Arch/Serial/Tests.antt =====
-- The serial port on a short line.
use aetheros_rust_project.Prelude.{ℕ, ◌≡◌, refl, List, [], ◌∷◌, some, arith, length}
use aetheros_rust_project.Prelude.Text.{codes}
use aetheros_rust_project.Arch.Serial.{com1_base, new, init, write_str}
use aetheros_rust_project.Arch.Serial.Transmit.{carriage_returns, bytes_to, write_str_terminates}

-- The transmitter is busy twice.
abbrev statuses : List ℕ
statuses = 0x60 ∷ 0x00 ∷ 0x41 ∷ 0x20 ∷ 0x60 ∷ []

starts_silent : length (init (new com1_base)) ≡ 7
unfolding init
starts_silent = refl

write_str_terminates_example :
    (later : List ℕ) × (write_str (new com1_base) (codes "a\n") statuses
      ≡ some (bytes_to 0x3F8 (carriage_returns (codes "a\n")), later))
write_str_terminates_example =
    write_str_terminates (new com1_base) (codes "a\n") statuses (omega arith)
