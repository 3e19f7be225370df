-- ===== src/Xtask/Check/Tests.antt =====
-- The checks of the xtask on a host whose state is the paths that exist and a clock. The log has what QEMU
-- shows from its start on, and the first write to the monitor makes the screenshot.
use aetheros_rust_project.Prelude.{
  ℕ, ◌+◌, ◌*◌, ◌≤◌, ◌≡◌, refl, Bool, false, ◌||◌, List, [], ◌∷◌, ◌++◌, Option, none, some, arith,
  bytes_eq, bytes_eq_refl, if◌then◌else◌, replicate,
}
use aetheros_rust_project.Prelude.Text.{Text, codes}
use aetheros_rust_project.Xtask.{Result, ok}
use aetheros_rust_project.Xtask.Stage
use aetheros_rust_project.Xtask.Keys.{
  send_shell_command, send_keys, send_monitor_command, qemu_sendkey_name,
}
use aetheros_rust_project.Xtask.Wait.{
  wait_for_log_marker, loop, marker_round, contains_marker, contains, connect_monitor,
  connect_round, terminate_child,
}
use aetheros_rust_project.Xtask.Stage.{
  run_command, find_existing, find_command, command_candidates, ensure_limine_bundle,
}
use aetheros_rust_project.Xtask.Stage.Tree.{
  preferred_rustup_toolchain, cargo_command, build_kernel, locate_kernel_binary,
  locate_limine_config, recreate_directory, copy_tree, make_directories, fill_tree, stage_from,
  stage_built, stage_boot_tree, env_path, find_qemu_binary,
}
use aetheros_rust_project.Xtask.Stage.Staged.{Copies}
use aetheros_rust_project.Xtask.Stage.Qemu.{
  boot_timeout_secs, qemu_monitor_port, find_ovmf_code, find_ovmf_vars_source, ensure_ovmf_vars,
  build_qemu_command,
}
use aetheros_rust_project.Xtask.Check.{
  Host, success, verify_qemu_shell, main, timeout, run, run_with, start_shell, remove_if_exists,
  send_all, validate_ppm_screenshot,
}
use aetheros_rust_project.Xtask.Check.Passed.{Removes, ShellOutcome}
use aetheros_rust_project.Xtask.Check.Shell.{verify_qemu_shell-Outcome}

record State : Type 0 where
  paths : List Text
  clock : ℕ

abbrev elem : Text → List Text → Bool
elem p [] = false
elem p (q ∷ qs) = bytes_eq q p || elem p qs

abbrev without : Text → List Text → List Text
without p [] = []
without p (q ∷ qs) = let rest = without p qs in if bytes_eq q p then rest else q ∷ rest

elem-without : (p : Text) (qs : List Text) → elem p (without p qs) ≡ false
elem-without p [] = refl
elem-without p (q ∷ qs) = ground (arith, elem-without p qs)

elem-without_ne : (p r : Text) (qs : List Text) → elem r qs ≡ false → elem r (without p qs) ≡ false
elem-without_ne p r [] absent = refl
elem-without_ne p r (q ∷ qs) absent = ground (arith, elem-without_ne p r qs)

abbrev var : Text → Option Text
var name =
    if bytes_eq name (codes "PATH")
    then some (codes "/bin")
    else if bytes_eq name (codes "AETHER_BOOT_TIMEOUT_SECS")
    then some (codes "1")
    else none

abbrev log : Text
log =
    codes "AetherOS: kernel initialized\nAetherOS shell ready\nShow this command list\n"
    ++ codes "AetherOS academic kernel\n/README.TXT\n"

abbrev with_path : State → Text → State
with_path w p = record w { paths = p ∷ w.paths }

abbrev files : Stage.Host State Text
files = record {
  exists = λ w p. elem p w.paths;
  read = λ w p. ok (codes "P6" ++ replicate 14 0);
  remove_dir_all = λ w p. ok w;
  create_dir_all = λ w p. ok w;
  copy = λ w a b. ok (with_path w b);
  status = λ w c. ok (none, w);
  var = var;
  split_paths = λ t. t ∷ [];
  from = λ t. t;
  join = λ p t. p ++ b'/' ∷ t;
  show = λ p. p;
  debug = λ p. p;
  sha256 = λ t. t;
  windows = false;
}

abbrev parse : Text → Option ℕ
parse t = some 1

abbrev host : Host State Text
host = record {
  files = files;
  remove_file = λ w p. ok (record w { paths = without p w.paths });
  read_to_string = λ w p. ok log;
  spawn = λ w c. ok (with_path w (codes "r/dist/serial.log"));
  try_wait = λ w. ok none;
  take_stderr = λ w. none;
  kill = λ w. ok w;
  wait = λ w. ok w;
  now = λ w. w.clock;
  sleep = λ n w. record w { clock = w.clock + n };
  connect = λ port w. ok w;
  write_all = λ w t. ok (with_path w (codes "r/dist/framebuffer-shell.ppm"));
  parse_u16 = parse;
  parse_u64 = parse;
}

abbrev initial : State
initial = record {
  paths =
      codes "/bin/qemu-system-x86_64"
      ∷ codes "/usr/share/OVMF/OVMF_CODE.fd"
      ∷ codes "/usr/share/OVMF/OVMF_VARS.fd"
      ∷ codes "r/dist/serial.log"
      ∷ codes "r/config/boot/limine.conf"
      ∷ codes "r/target/x86_64-aetheros/debug/aether-kernel"
      ∷ codes "r/dist/limine-v12.3.2/limine-binary/BOOTX64.EFI"
      ∷ [];
  clock = 0;
}

abbrev digit : ℕ → Text
digit n = n ∷ []

host-Copies : Copies host.files
host-Copies w w' source dest e =
    let same : with_path w dest ≡ w' = cc in
    rw (← same) (ground (arith, bytes_eq_refl dest), λ p there. ground (arith, there))

host-Removes : Removes host digit digit
host-Removes w w' path e =
    let same : ◌≡◌ {A = State} (record w { paths = without path w.paths }) w' = cc in
    rw (← same) (elem-without path w.paths, λ p absent. elem-without_ne path p w.paths absent)

short : timeout host digit digit * 5 ≤ 25
unfolding boot_timeout_secs
short = omega arith

verify_qemu_shell-Outcome_example :
    (r : Result State) × (verify_qemu_shell host digit digit 26 initial (codes "r") ≡ some r)
    × ShellOutcome host digit digit (codes "r") initial r
verify_qemu_shell-Outcome_example =
    verify_qemu_shell-Outcome host digit digit 25 (codes "r") initial host-Copies host-Removes
      (λ v. omega arith) short (omega arith)

shell_check_passes :
    main host digit digit 26 (codes "shell-check" ∷ []) initial (codes "r") ≡ some success
unfolding main run run_with verify_qemu_shell start_shell stage_boot_tree stage_built stage_from
    fill_tree make_directories copy_tree build_kernel cargo_command preferred_rustup_toolchain
    locate_kernel_binary locate_limine_config recreate_directory ensure_limine_bundle run_command
    find_existing find_command command_candidates find_qemu_binary find_ovmf_code env_path
    find_ovmf_vars_source ensure_ovmf_vars build_qemu_command qemu_monitor_port boot_timeout_secs
    remove_if_exists wait_for_log_marker loop marker_round contains_marker contains connect_monitor
    connect_round send_all send_shell_command send_keys send_monitor_command qemu_sendkey_name
    validate_ppm_screenshot terminate_child
shell_check_passes = refl
