-- ===== src/Xtask/Wait.antt =====
-- How the xtask waits for QEMU: `wait_for_log_marker`, the loop of `verify_qemu_boot`,
-- `connect_monitor`, `terminate_child` and the reading of the serial log. `W` is the state of the
-- host, with the operations on it that the standard library has; times are in milliseconds.
pub mod Returns
pub mod Ends
mod Tests
use aetheros_rust_project.Prelude.{
  ℕ, zero, suc, ◌+◌, ◌-◌, ◌*◌, Bool, true, false, ◌&&◌, ◌||◌, List, [], ◌∷◌, ◌++◌, Option, none,
  some, length, drop, leb, ◌==◌, if◌then◌else◌,
}
use aetheros_rust_project.Prelude.Text.{Text, codes}
use aetheros_rust_project.Xtask.{Result, err, ok, ◌>>=◌, map_err}

-- `read_log` gives none if the file does not exist; `try_wait` shows the status of a child that has
-- ended.
pub record Host (W : Type 0) : Type 0 where
  pub read_log : W → Option (Result Text)
  pub try_wait : W → Result (Option Text)
  pub stderr : W → Result Text
  pub kill : W → Result W
  pub wait : W → Result W
  pub now : W → ℕ
  pub sleep : W → W

abbrev pub starts_with : Text → Text → Bool
starts_with s [] = true
starts_with [] (p ∷ ps) = false
starts_with (b ∷ bs) (p ∷ ps) = if p == b then starts_with bs ps else false

-- `str::contains`
unfoldable pub contains : Text → Text → Bool
contains [] marker = starts_with [] marker
contains (b ∷ bs) marker = starts_with (b ∷ bs) marker || contains bs marker

-- `str::lines`, whose lines end in `\n` or `\r\n`, and `join("\n")`.
abbrev cons_byte : ℕ → List Text → List Text
cons_byte b [] = (b ∷ []) ∷ []
cons_byte b (line ∷ lines) = (b ∷ line) ∷ lines

unfoldable pub lines : Text → List Text
lines [] = []
lines (b ∷ bs) =
    let rest = lines bs in
    if b == b'\n'
    then [] ∷ rest
    else if b == b'\r' && starts_with bs (b'\n' ∷ [])
    then rest
    else cons_byte b rest

unfoldable pub join : List Text → Text
join [] = []
join (line ∷ []) = line
join (line ∷ next ∷ more) = line ++ b'\n' ∷ join (next ∷ more)

module _ {W : Type 0} (host : Host W) (show_nat : ℕ → Text) where
  -- The message of a log that cannot be read, without the path.
  abbrev unreadable : Text → Text
  unreadable e = codes "failed to read serial log: " ++ e

  unfoldable pub contains_marker : Text → W → Result Bool
  contains_marker marker w = elim (host.read_log w) [
    | none ↦ ok false
    | some log ↦ map_err unreadable log >>= λ content. ok (contains content marker)
  ]

  unfoldable pub tail_lines : ℕ → W → Result Text
  tail_lines max_lines w = elim (host.read_log w) [
    | none ↦ ok (codes "<serial log not created>")
    | some log ↦ map_err unreadable log >>= λ content.
        let all = lines content in ok (join (drop (length all - max_lines) all))
  ]

  unfoldable pub terminate_child : W → Result W
  terminate_child w = elim (host.try_wait w) [
    | err e ↦ err (codes "failed to inspect QEMU process state: " ++ e)
    | ok (some status) ↦ ok w
    | ok none ↦
        map_err (λ e. codes "failed to terminate QEMU after verification: " ++ e) (host.kill w)
        >>= λ killed.
            map_err (λ e. codes "failed to wait for QEMU shutdown: " ++ e) (host.wait killed)
  ]

  -- The end of a wait, when QEMU has exited.
  unfoldable pub exited : (before status behind : Text) → W → Result W
  exited before status behind w = host.stderr w >>= λ stderr. tail_lines 20 w >>= λ tail. err (
      codes "QEMU exited before "
      ++ before
      ++ codes ". status="
      ++ status
      ++ behind
      ++ codes ". serial_tail=\n"
      ++ tail
      ++ codes "\nqemu_stderr=\n"
      ++ stderr)

  -- A round of a loop gives what the function returns, or none to sleep and go round again.
  unfoldable pub loop : {R : Type 0} → ℕ → (W → Option R) → W → Option R
  loop zero round w = none
  loop (suc fuel) round w =
      let again = loop fuel round (host.sleep w) in
      elim (round w) [ some r ↦ some r | none ↦ again ]

  abbrev elapsed_ms : ℕ → W → ℕ
  elapsed_ms started w = host.now w - started

  abbrev polled : W → Result (Option Text)
  polled w = map_err (λ e. codes "failed while polling QEMU status: " ++ e) (host.try_wait w)

  -- One round of `wait_for_log_marker`, which began at `started`; `timeout` is in seconds.
  unfoldable pub marker_round : Text → (timeout started : ℕ) → W → Option (Result W)
  marker_round marker timeout started w = elim (contains_marker marker w) [
    | err e ↦ some (err e)
    | ok true ↦ some (ok w)
    | ok false ↦ elim (polled w) [
      | err e ↦ some (err e)
      | ok (some status) ↦ some (exited (codes "marker '" ++ marker ++ codes "'") status [] w)
      | ok none ↦
          if leb (timeout * 1000) (elapsed_ms started w)
          then some (
              tail_lines 20 w >>= λ tail. terminate_child w >>= λ w'. err (
                codes "timed out after "
                ++ show_nat timeout
                ++ codes "s waiting for marker '"
                ++ marker
                ++ codes "'. serial_tail=\n"
                ++ tail))
          else none
    ]
  ]

  unfoldable pub wait_for_log_marker : ℕ → Text → ℕ → W → Option (Result W)
  wait_for_log_marker fuel marker timeout w = loop fuel (marker_round marker timeout (host.now w)) w

  -- One round of the loop of `verify_qemu_boot`.
  unfoldable pub boot_round : Text → (timeout started : ℕ) → W → Option (Result W)
  boot_round marker timeout started w = elim (contains_marker marker w) [
    | err e ↦ some (err e)
    | ok true ↦ some (terminate_child w)
    | ok false ↦ elim (polled w) [
      | err e ↦ some (err e)
      | ok (some status) ↦
          some (exited (codes "boot success") status (codes ". marker='" ++ marker ++ codes "'") w)
      | ok none ↦
          if leb (timeout * 1000) (elapsed_ms started w)
          then some (
              tail_lines 20 w >>= λ tail. terminate_child w >>= λ w'. err (
                codes "boot-check timed out after "
                ++ show_nat timeout
                ++ codes "s waiting for marker '"
                ++ marker
                ++ codes "'. serial_tail=\n"
                ++ tail))
          else none
    ]
  ]

  unfoldable pub wait_for_boot : ℕ → Text → ℕ → W → Option (Result W)
  wait_for_boot fuel marker timeout w = loop fuel (boot_round marker timeout (host.now w)) w

  -- `TcpStream::connect` is `connect`, with the stream in the state of the host.
  unfoldable pub connect_round : (W → Result W) → (port timeout started : ℕ) → W → Option (Result W)
  connect_round connect port timeout started w = elim (connect w) [
    | ok w' ↦ some (ok w')
    | err e ↦
        if leb (timeout * 1000) (elapsed_ms started w)
        then some (
            err (
              codes "failed to connect to QEMU monitor on port "
              ++ show_nat port
              ++ codes ": "
              ++ e))
        else none
  ]

  unfoldable pub connect_monitor : ℕ → (W → Result W) → (port timeout : ℕ) → W → Option (Result W)
  connect_monitor fuel connect port timeout w =
      loop fuel (connect_round connect port timeout (host.now w)) w
