-- ===== src/Arch/Serial.antt =====
-- kernel/src/arch/x86_64/serial.rs: the first serial port. What is written to ports is a list of
-- writes; the values that the line status register gives, one for each read, are an argument.
pub mod Transmit
mod Tests
use aetheros_rust_project.Prelude.{
  ℕ, ◌+◌, Bool, not, List, [], ◌∷◌, ◌++◌, Option, none, some, bit_and, ◌==◌, if◌then◌else◌,
}
use aetheros_rust_project.Prelude.Text.{Text}

-- `Port::<u8>::write`
pub record PortWrite : Type 0 where
  pub port : ℕ
  pub value : ℕ

abbrev pub com1_base : ℕ
com1_base = 0x3F8

pub record SerialPort : Type 0 where
  pub data_port : ℕ
  pub interrupt_enable : ℕ
  pub fifo_control : ℕ
  pub line_control : ℕ
  pub modem_control : ℕ
  pub line_status : ℕ

-- `SerialPort::new`
abbrev pub new : ℕ → SerialPort
new base = record {
  data_port = base;
  interrupt_enable = base + 1;
  fifo_control = base + 2;
  line_control = base + 3;
  modem_control = base + 4;
  line_status = base + 5;
}

-- `SerialPort::init`
unfoldable pub init : SerialPort → List PortWrite
init p =
    record { port = p.interrupt_enable; value = 0x00 }
    ∷ record { port = p.line_control; value = 0x80 }
    ∷ record { port = p.data_port; value = 0x03 }
    ∷ record { port = p.interrupt_enable; value = 0x00 }
    ∷ record { port = p.line_control; value = 0x03 }
    ∷ record { port = p.fifo_control; value = 0xC7 }
    ∷ record { port = p.modem_control; value = 0x0B }
    ∷ []

-- `can_transmit` on the value that was read.
abbrev pub can_transmit : ℕ → Bool
can_transmit status = not (bit_and status 0x20 == 0)

-- `while !self.can_transmit() {}`: the values that are still to come, or `none` while it waits.
unfoldable pub wait : List ℕ → Option (List ℕ)
wait [] = none
wait (status ∷ later) = let rest = wait later in if can_transmit status then some later else rest

unfoldable pub write_raw_byte : SerialPort → ℕ → List ℕ → Option (List PortWrite × List ℕ)
write_raw_byte p byte statuses = elim (wait statuses) [
  | none ↦ none
  | some later ↦ some (record { port = p.data_port; value = byte } ∷ [], later)
]

-- What `>>=` of two writes does.
abbrev pub then_write :
    Option (List PortWrite × List ℕ)
    → (List ℕ → Option (List PortWrite × List ℕ))
    → Option (List PortWrite × List ℕ)
then_write none more = none
then_write (some (out, later)) more = elim (more later) [
  | none ↦ none
  | some (out', rest) ↦ some (out ++ out', rest)
]

unfoldable pub write_byte : SerialPort → ℕ → List ℕ → Option (List PortWrite × List ℕ)
write_byte p byte statuses =
    if byte == b'\n'
    then then_write (write_raw_byte p b'\r' statuses) (write_raw_byte p byte)
    else write_raw_byte p byte statuses

-- `write_str` of `fmt::Write`
unfoldable pub write_str : SerialPort → Text → List ℕ → Option (List PortWrite × List ℕ)
write_str p [] statuses = some ([], statuses)
write_str p (byte ∷ bytes) statuses = then_write (write_byte p byte statuses) (write_str p bytes)
