-- ===== src/Arch/Serial/Transmit.antt =====
-- What kernel/src/arch/x86_64/serial.rs sends, and when its busy waits end.
use aetheros_rust_project.Prelude.{
  ℕ, suc, ◌+◌, ◌≤◌, ◌≡◌, refl, ◌∙◌, sym, ap, List, [], ◌∷◌, ◌++◌, map, Option, some, arith, length,
  ◌==◌, if◌then◌else◌, Bool-cases, inl, inr,
}
use aetheros_rust_project.Prelude.Text.{Text}
use aetheros_rust_project.Arch.Serial.{
  SerialPort, PortWrite, can_transmit, wait, write_raw_byte, then_write, write_byte, write_str,
}

-- A text with a carriage return before each line feed.
abbrev pub carriage_returns : Text → Text
carriage_returns [] = []
carriage_returns (b ∷ bs) =
    let rest = carriage_returns bs in if b == b'\n' then b'\r' ∷ b ∷ rest else b ∷ rest

-- How many of the status values let a byte through.
abbrev pub ready_count : List ℕ → ℕ
ready_count [] = 0
ready_count (status ∷ later) =
    let rest = ready_count later in if can_transmit status then suc rest else rest

abbrev pub bytes_to : ℕ → Text → List PortWrite
bytes_to port = map (λ byte. record { port = port; value = byte })

wait_returns :
    (statuses : List ℕ) {n : ℕ}
    → suc n ≤ ready_count statuses
    → (later : List ℕ) × (wait statuses ≡ some later) × (n ≤ ready_count later)
unfolding wait
wait_returns [] h = absurd (omega arith)
wait_returns (status ∷ later) h = elim (Bool-cases (can_transmit status)) [
  | inl ready ↦ (later, rw ready refl, ground (arith, ready))
  | inr busy ↦ let (rest, e, left) = wait_returns later (rw busy at h) in (rest, rw busy e, left)
]

-- A write that sends `sent` and leaves `n` values that let a byte through.
abbrev Sends : SerialPort → Text → ℕ → Option (List PortWrite × List ℕ) → Type 0
Sends p sent n r =
    (later : List ℕ) × (r ≡ some (bytes_to p.data_port sent, later)) × (n ≤ ready_count later)

write_raw_byte-Sends :
    (p : SerialPort) (byte n : ℕ) (statuses : List ℕ)
    → suc n ≤ ready_count statuses
    → Sends p (byte ∷ []) n (write_raw_byte p byte statuses)
unfolding write_raw_byte
write_raw_byte-Sends p byte n statuses h =
    let (later, e, left) = wait_returns statuses h in (later, rw (e, write_raw_byte) refl, left)

bytes_to-append :
    (port : ℕ) (xs ys : Text) → bytes_to port (xs ++ ys) ≡ bytes_to port xs ++ bytes_to port ys
bytes_to-append port [] ys = refl
bytes_to-append port (x ∷ xs) ys =
    ap (◌∷◌ (record { port = port; value = x })) (bytes_to-append port xs ys)

then_write-some :
    (out out' : List PortWrite) (later rest : List ℕ)
    (more : List ℕ → Option (List PortWrite × List ℕ))
    → more later ≡ some (out', rest)
    → then_write (some (out, later)) more ≡ some (out ++ out', rest)
then_write-some out out' later rest more e = ground (arith, e)

then_write-Sends :
    (p : SerialPort) (sent sent' : Text) (n m : ℕ) (r : Option (List PortWrite × List ℕ))
    (more : List ℕ → Option (List PortWrite × List ℕ))
    → Sends p sent n r
    → ((later : List ℕ) → n ≤ ready_count later → Sends p sent' m (more later))
    → Sends p (sent ++ sent') m (then_write r more)
then_write-Sends p sent sent' n m r more (later, e, left) h =
    let (later', e', left') = h later left in
    let first = ap (λ t. then_write t more) e in
    let both =
      then_write-some (bytes_to p.data_port sent) (bytes_to p.data_port sent') later later' more
        e' in
    (
      later',
      first ∙ both ∙ ap (λ out. some (out, later')) (sym (bytes_to-append p.data_port sent sent')),
      left',
    )

write_byte-Sends :
    (p : SerialPort) (byte n : ℕ) (statuses : List ℕ)
    → n + length (carriage_returns (byte ∷ [])) ≤ ready_count statuses
    → Sends p (carriage_returns (byte ∷ [])) n (write_byte p byte statuses)
unfolding write_byte
write_byte-Sends p byte n statuses h = elim (Bool-cases (byte == b'\n')) [
  | inl feed ↦ rw feed (
      then_write-Sends p (b'\r' ∷ []) (byte ∷ []) (suc n) n (write_raw_byte p b'\r' statuses)
        (write_raw_byte p byte)
        (write_raw_byte-Sends p b'\r' (suc n) statuses (ground (arith, feed)))
        (λ later left. write_raw_byte-Sends p byte n later left))
  | inr other ↦ rw other (write_raw_byte-Sends p byte n statuses (ground (arith, other)))
]

carriage_returns-cons :
    (b : ℕ) (bs : Text)
    → carriage_returns (b ∷ bs) ≡ carriage_returns (b ∷ []) ++ carriage_returns bs
carriage_returns-cons b bs = ground arith

write_str-Sends :
    (p : SerialPort) (text : Text) (n : ℕ) (statuses : List ℕ)
    → n + length (carriage_returns text) ≤ ready_count statuses
    → Sends p (carriage_returns text) n (write_str p text statuses)
unfolding write_str
write_str-Sends p [] n statuses h = (statuses, refl, omega arith)
write_str-Sends p (b ∷ bs) n statuses h =
    let whole = carriage_returns-cons b bs in
    rw whole (
      then_write-Sends p (carriage_returns (b ∷ [])) (carriage_returns bs)
        (n + length (carriage_returns bs)) n (write_byte p b statuses) (write_str p bs)
        (write_byte-Sends p b (n + length (carriage_returns bs)) statuses (ground arith))
        (λ later left. write_str-Sends p bs n later left))

-- If the transmitter becomes empty often enough, once for each byte to send, the busy waits of a
-- text all end, and what goes to the data port is the text with a carriage return before each line
-- feed, in order.
pub write_str_terminates :
    (p : SerialPort) (text : Text) (statuses : List ℕ)
    → length (carriage_returns text) ≤ ready_count statuses
    → (later : List ℕ) × (write_str p text statuses
        ≡ some (bytes_to p.data_port (carriage_returns text), later))
write_str_terminates p text statuses h =
    let (later, e, left) = write_str-Sends p text 0 statuses (omega arith) in (later, e)
