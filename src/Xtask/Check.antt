-- ===== src/Xtask/Check.antt =====
-- The commands of tools/xtask/src/main.rs: `verify_qemu_boot`, `verify_qemu_shell`,
-- `run_workspace_tests`, and `run` and `main`, which choose among them. What they print is not
-- modelled. `W` is the state of the host with the program that was spawned, which is QEMU; `root` is the
-- root of the workspace.
pub mod Passed
pub mod Outcome
mod Answered
pub mod Shell
mod Tests
use aetheros_rust_project.Prelude.{
  ℕ, Bool, false, ◌||◌, List, [], ◌∷◌, ◌++◌, Option, none, some, length, ltb, not, if◌then◌else◌,
  bytes_eq,
}
use aetheros_rust_project.Prelude.Text.{Text, codes}
use aetheros_rust_project.Xtask.{Result, err, ok, ◌>>=◌, map_err}
use aetheros_rust_project.Xtask.Keys.{send_monitor_command, send_shell_command}
use aetheros_rust_project.Xtask.Wait
use aetheros_rust_project.Xtask.Wait.{
  starts_with, wait_for_log_marker, wait_for_boot, connect_monitor, terminate_child,
}
use aetheros_rust_project.Xtask.Stage
use aetheros_rust_project.Xtask.Stage.{Command, arg, current_dir, run_command}
use aetheros_rust_project.Xtask.Stage.Tree.{build_kernel, cargo_command, stage_boot_tree}
use aetheros_rust_project.Xtask.Stage.Qemu.{
  build_qemu_command, boot_success_marker, boot_timeout_secs, qemu_monitor_port, run_qemu,
}

-- The operations of the standard library. `take_stderr` is what is read from the child's standard
-- error, or none if that was taken before; `connect` has the port, and the stream to the monitor is
-- in the state of the host; `sleep` has the milliseconds.
pub record Host (W P : Type 0) : Type 0 where
  pub files : Stage.Host W P
  pub remove_file : W → P → Result W
  pub read_to_string : W → P → Result Text
  pub spawn : W → Command P → Result W
  pub try_wait : W → Result (Option Text)
  pub take_stderr : W → Option (Result Text)
  pub kill : W → Result W
  pub wait : W → Result W
  pub now : W → ℕ
  pub sleep : ℕ → W → W
  pub connect : ℕ → W → Result W
  pub write_all : W → Text → Result W
  pub parse_u16 : Text → Option ℕ
  pub parse_u64 : Text → Option ℕ

pub data ExitCode : Type 0 where
  success failure : ExitCode

-- `?` after what may not return.
infixl 5 ◌>>>◌
abbrev pub ◌>>>◌ : {T U : Type 0} → Option (Result T) → (T → Option (Result U)) → Option (Result U)
none >>> next = none
some (err e) >>> next = some (err e)
some (ok t) >>> next = next t

module _ {W P : Type 0} (host : Host W P) (show_nat show_char : ℕ → Text) where
  abbrev pub serial_log : P → P
  serial_log root = host.files.join (host.files.join root (codes "dist")) (codes "serial.log")

  abbrev pub screenshot : P → P
  screenshot root =
      host.files.join (host.files.join root (codes "dist")) (codes "framebuffer-shell.ppm")

  abbrev pub marker : Text
  marker = boot_success_marker host.files

  abbrev pub timeout : ℕ
  timeout = boot_timeout_secs host.files host.parse_u64

  unfoldable pub read_child_stderr : W → Result Text
  read_child_stderr w = elim (host.take_stderr w) [
    | none ↦ ok []
    | some stderr ↦ map_err (λ e. codes "failed to read QEMU stderr: " ++ e) stderr
  ]

  -- What the waits use of the host, with the path of the log.
  abbrev pub waiting : P → Wait.Host W
  waiting log = record {
    read_log = λ w. if host.files.exists w log then some (host.read_to_string w log) else none;
    try_wait = host.try_wait;
    stderr = read_child_stderr;
    kill = host.kill;
    wait = host.wait;
    now = host.now;
    sleep = host.sleep 200;
  }

  unfoldable pub remove_if_exists : P → W → Result W
  remove_if_exists path w =
      if host.files.exists w path
      then map_err (λ e. codes "failed to remove " ++ host.files.show path ++ codes ": " ++ e)
          (host.remove_file w path)
      else ok w

  unfoldable pub validate_ppm_screenshot : P → W → Result (Unit {0})
  validate_ppm_screenshot path w =
      if not (host.files.exists w path)
      then err (codes "framebuffer dump was not created: " ++ host.files.show path)
      else map_err
          (λ e. codes "failed to read framebuffer dump " ++ host.files.show path ++ codes ": " ++ e)
          (host.files.read w path)
        >>= λ bytes.
            if ltb (length bytes) 16
            then err (
                codes "framebuffer dump is unexpectedly small: "
                ++ show_nat (length bytes)
                ++ codes " bytes")
            else if not (starts_with bytes (codes "P6"))
            then err (
                codes "framebuffer dump does not look like a binary PPM image: "
                ++ host.files.show path)
            else ok tt

  abbrev pub spawned : Command P × W → Result W
  spawned qemu =
      map_err (λ e. codes "failed to start qemu-system-x86_64: " ++ e) (host.spawn qemu.1 qemu.0)

  abbrev pub qemu_for : P → W → Result (Command P × W)
  qemu_for root w =
      build_qemu_command host.files w root (codes "file:" ++ host.files.show (serial_log root))
        (codes "none")

  -- The first `if` of `verify_qemu_boot`.
  unfoldable pub clear_log : P → W → Result W
  clear_log root w =
      if host.files.exists w (serial_log root)
      then map_err (λ e. codes "failed to clear previous serial log: " ++ e)
          (host.remove_file w (serial_log root))
      else ok w

  -- `verify_qemu_boot` up to its loop.
  unfoldable pub start_boot : W → P → Result W
  start_boot w root =
      stage_boot_tree host.files w root >>= clear_log root >>= qemu_for root >>= spawned

  unfoldable pub verify_qemu_boot : ℕ → W → P → Option (Result W)
  verify_qemu_boot fuel w root = some (start_boot w root) >>> λ launched.
      wait_for_boot (waiting (serial_log root)) show_nat fuel marker timeout launched

  abbrev pub with_monitor : Command P × W → Result (Command P × W)
  with_monitor qemu = ok (
    arg qemu.0 (
        codes "-monitor"
        ∷ (codes "tcp:127.0.0.1:"
            ++ show_nat (qemu_monitor_port host.files host.parse_u16)
            ++ codes ",server,nowait")
        ∷ []),
    qemu.1,
  )

  abbrev pub clear_both : P → W → Result W
  clear_both root w = remove_if_exists (serial_log root) w >>= remove_if_exists (screenshot root)

  -- `verify_qemu_shell` up to its first wait.
  unfoldable pub start_shell : W → P → Result W
  start_shell w root =
      stage_boot_tree host.files w root
      >>= clear_both root
      >>= qemu_for root
      >>= with_monitor
      >>= spawned

  abbrev pub wait_for : ℕ → P → Text → W → Option (Result W)
  wait_for fuel root text w =
      wait_for_log_marker (waiting (serial_log root)) show_nat fuel text timeout w

  abbrev pub connected : ℕ → P → W → Option (Result W)
  connected fuel root w =
      let port = qemu_monitor_port host.files host.parse_u16 in
      connect_monitor (waiting (serial_log root)) show_nat fuel (host.connect port) port 5 w

  abbrev send : Text → W → Result W
  send command w = send_shell_command show_char host.write_all host.sleep w command

  -- What `verify_qemu_shell` sends to the monitor.
  unfoldable pub send_all : P → W → Result W
  send_all root monitor =
      send (codes "help") monitor >>= send (codes "info") >>= send (codes "ls") >>= λ w.
      send_monitor_command show_char host.write_all w
        (codes "screendump " ++ host.files.show (screenshot root))

  abbrev pub validated : P → W → Result W
  validated root w = validate_ppm_screenshot (screenshot root) w >>= λ valid.
      terminate_child (waiting (serial_log root)) show_nat w

  unfoldable pub verify_qemu_shell : ℕ → W → P → Option (Result W)
  verify_qemu_shell fuel w root =
      some (start_shell w root)
      >>> wait_for fuel root marker
      >>> wait_for fuel root (codes "AetherOS shell ready")
      >>> connected fuel root
      >>> (λ monitor. some (send_all root monitor))
      >>> wait_for fuel root (codes "Show this command list")
      >>> wait_for fuel root (codes "AetherOS academic kernel")
      >>> wait_for fuel root (codes "/README.TXT")
      >>> (λ listed. some (validated root listed))

  unfoldable pub run_workspace_tests : W → P → Result W
  run_workspace_tests w root =
      let cargo = λ (more : List Text). current_dir root (arg (cargo_command host.files) more) in
      run_command host.files w
        (cargo (codes "fmt" ∷ codes "--all" ∷ codes "--" ∷ codes "--check" ∷ []))
        (codes "cargo fmt")
      >>= λ formatted.
          run_command host.files formatted
            (cargo (codes "check" ∷ codes "--locked" ∷ codes "--workspace" ∷ []))
            (codes "cargo check")
          >>= λ checked.
              run_command host.files checked
                (cargo (
                  codes "test"
                  ∷ codes "--locked"
                  ∷ codes "--package"
                  ∷ codes "aether-bootinfo"
                  ∷ codes "--package"
                  ∷ codes "xtask"
                  ∷ []))
                (codes "cargo test (host-safe packages)")

  -- `args.any(|arg| arg == "--debug")`
  abbrev any_debug : List Text → Bool
  any_debug [] = false
  any_debug (arg ∷ args) = bytes_eq arg (codes "--debug") || any_debug args

  unfoldable pub run_with : ℕ → Text → List Text → W → P → Option (Result W)
  run_with fuel command args w root =
      if bytes_eq command (codes "help")
      then some (ok w)
      else if bytes_eq command (codes "build")
      then some (build_kernel host.files w root)
      else if bytes_eq command (codes "stage")
      then some (stage_boot_tree host.files w root)
      else if bytes_eq command (codes "run")
      then some (run_qemu host.files (any_debug args) w root)
      else if bytes_eq command (codes "boot-check")
      then verify_qemu_boot fuel w root
      else if bytes_eq command (codes "shell-check")
      then verify_qemu_shell fuel w root
      else if bytes_eq command (codes "test")
      then some (run_workspace_tests w root)
      else some (err (codes "unknown xtask command: " ++ command))

  -- The arguments are those behind the program's name.
  unfoldable pub run : ℕ → List Text → W → P → Option (Result W)
  run fuel [] w root = run_with fuel (codes "help") [] w root
  run fuel (command ∷ args) w root = run_with fuel command args w root

  unfoldable pub main : ℕ → List Text → W → P → Option ExitCode
  main fuel args w root = elim (run fuel args w root) [
    | none ↦ none
    | some (ok w') ↦ some success
    | some (err e) ↦ some failure
  ]
