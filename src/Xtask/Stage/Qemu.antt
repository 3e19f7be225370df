-- ===== src/Xtask/Stage/Qemu.antt =====
-- How the xtask starts QEMU, and what it takes from the environment. `parse_u16` and `parse_u64` are
-- `str::parse`.

use aetheros_rust_project.Prelude.{
  ℕ, Bool, List, [], ◌∷◌, ◌++◌, map, Option, none, some, ltb, if◌then◌else◌,
}
use aetheros_rust_project.Prelude.Text.{Text, codes}
use aetheros_rust_project.Xtask.{Result, ok, ◌>>=◌, map_err}
use aetheros_rust_project.Xtask.Stage.{
  Host, Command, command, arg, current_dir, run_command, find_existing,
}
use aetheros_rust_project.Xtask.Stage.Tree.{
  ok_or, env_path, find_qemu_binary, stage_dir, stage_boot_tree,
}

abbrev pub ovmf_code_paths : List Text
ovmf_code_paths =
    codes "C:\\Program Files\\qemu\\share\\edk2-x86_64-code.fd"
    ∷ codes "/usr/share/OVMF/OVMF_CODE.fd"
    ∷ codes "/usr/share/OVMF/OVMF_CODE_4M.fd"
    ∷ codes "/usr/share/OVMF/OVMF_CODE.secboot.fd"
    ∷ codes "/usr/share/edk2/ovmf/OVMF_CODE.fd"
    ∷ codes "/usr/share/edk2/ovmf/OVMF_CODE_4M.fd"
    ∷ codes "/usr/share/qemu/OVMF_CODE.fd"
    ∷ codes "/usr/share/qemu/OVMF_CODE_4M.fd"
    ∷ codes "/usr/share/edk2/x64/OVMF_CODE.fd"
    ∷ codes "/opt/homebrew/share/qemu/edk2-x86_64-code.fd"
    ∷ []

abbrev pub ovmf_vars_paths : List Text
ovmf_vars_paths =
    codes "C:\\Program Files\\qemu\\share\\edk2-i386-vars.fd"
    ∷ codes "/usr/share/OVMF/OVMF_VARS.fd"
    ∷ codes "/usr/share/OVMF/OVMF_VARS_4M.fd"
    ∷ codes "/usr/share/edk2/ovmf/OVMF_VARS.fd"
    ∷ codes "/usr/share/edk2/ovmf/OVMF_VARS_4M.fd"
    ∷ codes "/usr/share/qemu/OVMF_VARS.fd"
    ∷ codes "/usr/share/qemu/OVMF_VARS_4M.fd"
    ∷ codes "/usr/share/edk2/x64/OVMF_VARS.fd"
    ∷ []

-- `.filter(|value| *value > 0).unwrap_or(default)`
abbrev pub positive_or : ℕ → Option ℕ → ℕ
positive_or default none = default
positive_or default (some value) = if ltb 0 value then value else default

-- `.ok().and_then(|value| value.parse().ok())`
abbrev pub parsed : (Text → Option ℕ) → Option Text → Option ℕ
parsed parse none = none
parsed parse (some value) = parse value

abbrev unwrap_or : Text → Option Text → Text
unwrap_or default none = default
unwrap_or default (some value) = value

module _ {S P : Type 0} (host : Host S P) where
  unfoldable pub find_ovmf_code : S → Option P
  find_ovmf_code s = elim (env_path host s (codes "AETHER_OVMF_CODE")) [
    | some path ↦ some path
    | none ↦ find_existing host s (map host.from ovmf_code_paths)
  ]

  unfoldable pub find_ovmf_vars_source : S → Option P
  find_ovmf_vars_source s = elim (env_path host s (codes "AETHER_OVMF_VARS")) [
    | some path ↦ some path
    | none ↦ find_existing host s (map host.from ovmf_vars_paths)
  ]

  unfoldable pub ensure_ovmf_vars : S → P → Result (P × S)
  ensure_ovmf_vars s root =
      let dist_dir = host.join root (codes "dist") in
      let ovmf_vars_dest = host.join dist_dir (codes "edk2-x86_64-vars.fd") in
      if host.exists s ovmf_vars_dest
      then ok (ovmf_vars_dest, s)
      else map_err (λ e. codes "failed to create dist directory: " ++ e)
          (host.create_dir_all s dist_dir)
        >>= λ s₁.
            ok_or
              (codes
                "UEFI variable store template not found. Install QEMU with edk2 variable images.")
              (find_ovmf_vars_source s₁)
            >>= λ source.
                map_err
                  (λ e.
                    codes "failed to copy OVMF vars template from "
                    ++ host.show source
                    ++ codes ": "
                    ++ e)
                  (host.copy s₁ source ovmf_vars_dest)
                >>= λ s₂. ok (ovmf_vars_dest, s₂)

  unfoldable pub build_qemu_command : S → P → Text → Text → Result (Command P × S)
  build_qemu_command s root serial_mode display_mode =
      ok_or (codes "qemu-system-x86_64 executable not found") (find_qemu_binary host s) >>= λ qemu.
      ok_or (codes "UEFI firmware not found. Install QEMU with edk2/OVMF firmware support.")
        (find_ovmf_code s)
      >>= λ ovmf_code. ensure_ovmf_vars s root >>= λ vars. ok (
        current_dir root (
            command (
              qemu
              ∷ codes "-machine"
              ∷ codes "q35"
              ∷ codes "-m"
              ∷ codes "256M"
              ∷ codes "-serial"
              ∷ serial_mode
              ∷ codes "-drive"
              ∷ (codes "if=pflash,format=raw,readonly=on,file=" ++ host.show ovmf_code)
              ∷ codes "-drive"
              ∷ (codes "if=pflash,format=raw,file=" ++ host.show vars.0)
              ∷ codes "-drive"
              ∷ (codes "format=raw,file=fat:rw:" ++ host.show (stage_dir host root))
              ∷ codes "-display"
              ∷ display_mode
              ∷ [])),
        vars.1,
      )

  abbrev qemu_display_mode : Text
  qemu_display_mode = unwrap_or (codes "default") (host.var (codes "AETHER_QEMU_DISPLAY"))

  abbrev qemu_serial_mode : Text
  qemu_serial_mode = unwrap_or (codes "stdio") (host.var (codes "AETHER_QEMU_SERIAL"))

  abbrev pub boot_success_marker : Text
  boot_success_marker =
      unwrap_or (codes "AetherOS: kernel initialized")
        (host.var (codes "AETHER_BOOT_SUCCESS_MARKER"))

  unfoldable pub qemu_monitor_port : (Text → Option ℕ) → ℕ
  qemu_monitor_port parse_u16 =
      positive_or 45454 (parsed parse_u16 (host.var (codes "AETHER_QEMU_MONITOR_PORT")))

  unfoldable pub boot_timeout_secs : (Text → Option ℕ) → ℕ
  boot_timeout_secs parse_u64 =
      positive_or 20 (parsed parse_u64 (host.var (codes "AETHER_BOOT_TIMEOUT_SECS")))

  unfoldable pub run_qemu : Bool → S → P → Result S
  run_qemu debug s root = stage_boot_tree host s root >>= λ s₁.
      build_qemu_command s₁ root qemu_serial_mode qemu_display_mode >>= λ qemu.
      run_command host qemu.1 (if debug then arg qemu.0 (codes "-s" ∷ codes "-S" ∷ []) else qemu.0)
        (codes "qemu-system-x86_64")
