-- ===== src/Xtask/Check/Answered.antt =====
-- What the waits of `verify_qemu_shell` in tools/xtask/src/main.rs have seen when they succeed.
use aetheros_rust_project.Prelude.{ℕ, ◌≤◌, ◌≡◌, true, Option, some, length}
use aetheros_rust_project.Prelude.Text.{Text, codes}
use aetheros_rust_project.Xtask.{Result, ok, >>=-ok}
use aetheros_rust_project.Xtask.Wait.{starts_with, terminate_child}
use aetheros_rust_project.Xtask.Wait.Ends.{wait_for_log_marker-ok, connect_monitor-ok}
use aetheros_rust_project.Xtask.Stage.Qemu.{qemu_monitor_port}
use aetheros_rust_project.Xtask.Check.{
  Host, ◌>>>◌, screenshot, marker, timeout, validate_ppm_screenshot, start_shell, wait_for,
  connected, send_all, validated, verify_qemu_shell,
}
use aetheros_rust_project.Xtask.Check.Passed.{
  >>>-ok, some-ok, Later, Shows, polling, Answered, validate_ppm_screenshot-ok,
}

module _ {W P : Type 0} (host : Host W P) (show_nat show_char : ℕ → Text) where
  -- The end of `verify_qemu_shell`.
  validated-ok :
      (root : P) (w w' : W)
      → validated host show_nat show_char root w ≡ ok w'
      → (bytes : Text) × (host.files.read w (screenshot host show_nat show_char root) ≡ ok bytes)
        × (16 ≤ length bytes)
        × (starts_with bytes (codes "P6") ≡ true)
        × (terminate_child (polling host show_nat show_char root) show_nat w ≡ ok w')
  validated-ok root w w' e =
      let path = screenshot host show_nat show_char root in
      let (tt, valid, ended) =
        >>=-ok (validate_ppm_screenshot host show_nat show_char path w) _ e in
      let (bytes, dump, size, format) =
        validate_ppm_screenshot-ok host show_nat show_char path w valid in
      (bytes, dump, size, format, ended)

  shown_by :
      (fuel : ℕ) (root : P) (text : Text) (w w' : W)
      → wait_for host show_nat show_char fuel root text w ≡ some (ok w')
      → Later host show_nat show_char root w w' × Shows host show_nat show_char root text w'
  shown_by fuel root text w w' e =
      let (k, same, shown) =
        wait_for_log_marker-ok (polling host show_nat show_char root) show_nat fuel text
          (timeout host show_nat show_char) w w' e in
      ((k, same), shown)

  -- The steps of `verify_qemu_shell` behind its start.
  abbrev pub to_boot : ℕ → P → W → Option (Result W)
  to_boot fuel root = wait_for host show_nat show_char fuel root (marker host show_nat show_char)

  abbrev pub to_shell : ℕ → P → W → Option (Result W)
  to_shell fuel root = wait_for host show_nat show_char fuel root (codes "AetherOS shell ready")

  abbrev pub to_monitor : ℕ → P → W → Option (Result W)
  to_monitor fuel root = connected host show_nat show_char fuel root

  abbrev pub to_send : ℕ → P → W → Option (Result W)
  to_send fuel root = λ monitor. some (send_all host show_nat show_char root monitor)

  abbrev pub to_help : ℕ → P → W → Option (Result W)
  to_help fuel root = wait_for host show_nat show_char fuel root (codes "Show this command list")

  abbrev pub to_info : ℕ → P → W → Option (Result W)
  to_info fuel root = wait_for host show_nat show_char fuel root (codes "AetherOS academic kernel")

  abbrev pub to_list : ℕ → P → W → Option (Result W)
  to_list fuel root = wait_for host show_nat show_char fuel root (codes "/README.TXT")

  abbrev pub to_end : ℕ → P → W → Option (Result W)
  to_end fuel root = λ listed. some (validated host show_nat show_char root listed)

  pub verify_qemu_shell-Answered :
      (fuel : ℕ) (root : P) (w w' : W)
      → verify_qemu_shell host show_nat show_char fuel w root ≡ some (ok w')
      → (launched : W) × (start_shell host show_nat show_char w root ≡ ok launched)
        × Answered host show_nat show_char root launched w'
  unfolding verify_qemu_shell
  verify_qemu_shell-Answered fuel root w w' e =
      let s₀ = some (start_shell host show_nat show_char w root) in
      let s₂ = s₀ >>> (to_boot fuel root) >>> (to_shell fuel root) in
      let s₄ = s₂ >>> (to_monitor fuel root) >>> (to_send fuel root) in
      let s₆ = s₄ >>> (to_help fuel root) >>> (to_info fuel root) in
      let (listed, e₇, last) = >>>-ok (s₆ >>> (to_list fuel root)) (to_end fuel root) e in
      let (informed, e₆, lists) = >>>-ok s₆ (to_list fuel root) e₇ in
      let (helped, e₅, informs) = >>>-ok (s₄ >>> (to_help fuel root)) (to_info fuel root) e₆ in
      let (sent, e₄, helps) = >>>-ok s₄ (to_help fuel root) e₅ in
      let (monitor, e₃, sends) = >>>-ok (s₂ >>> (to_monitor fuel root)) (to_send fuel root) e₄ in
      let (ready, e₂, connects) = >>>-ok s₂ (to_monitor fuel root) e₃ in
      let (booted, e₁, readies) = >>>-ok (s₀ >>> (to_boot fuel root)) (to_shell fuel root) e₂ in
      let (launched, e₀, boots) = >>>-ok s₀ (to_boot fuel root) e₁ in
      let boot = shown_by fuel root (marker host show_nat show_char) launched booted boots in
      let shell = shown_by fuel root (codes "AetherOS shell ready") booted ready readies in
      let help = shown_by fuel root (codes "Show this command list") sent helped helps in
      let info = shown_by fuel root (codes "AetherOS academic kernel") helped informed informs in
      let listing = shown_by fuel root (codes "/README.TXT") informed listed lists in
      let port = qemu_monitor_port host.files host.parse_u16 in
      let (bytes, dump, size, format, ended) = validated-ok root listed w' (some-ok last) in
      (
        launched,
        some-ok e₀,
        record {
          booted = booted;
          ready = ready;
          monitor = monitor;
          sent = sent;
          helped = helped;
          informed = informed;
          listed = listed;
          boots = boot.0;
          boots_shown = boot.1;
          readies = shell.0;
          ready_shown = shell.1;
          connects =
              connect_monitor-ok (polling host show_nat show_char root) show_nat fuel
                (host.connect port) port 5 ready monitor connects;
          sends = some-ok sends;
          helps = help.0;
          help_shown = help.1;
          informs = info.0;
          info_shown = info.1;
          lists = listing.0;
          listing_shown = listing.1;
          bytes = bytes;
          dump = dump;
          size = size;
          format = format;
          ends = ended;
        },
      )
