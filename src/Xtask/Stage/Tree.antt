-- ===== src/Xtask/Stage/Tree.antt =====
-- `build_kernel`, `stage_boot_tree` and `run_qemu` of the xtask, with the paths that they look for.
-- `root` is the root of the workspace.

use aetheros_rust_project.Prelude.{[], ◌∷◌, ◌++◌, Option, none, some, if◌then◌else◌}
use aetheros_rust_project.Prelude.Text.{Text, codes}
use aetheros_rust_project.Prelude.Str.{trim}
use aetheros_rust_project.Xtask.{Result, err, ok, ◌>>=◌, map_err}
use aetheros_rust_project.Xtask.Stage.{
  Host, Command, command, arg, current_dir, run_command, find_existing, find_command,
  ensure_limine_bundle,
}

abbrev pub ok_or : {T : Type 0} → Text → Option T → Result T
ok_or e none = err e
ok_or e (some t) = ok t

-- A toolchain that is white space alone is none.
abbrev unless_blank : Text → Text → Option Text
unless_blank toolchain [] = none
unless_blank toolchain (b ∷ bs) = some toolchain

module _ {S P : Type 0} (host : Host S P) where
  unfoldable pub preferred_rustup_toolchain : Option Text
  preferred_rustup_toolchain = elim (host.var (codes "AETHER_RUSTUP_TOOLCHAIN")) [
    | some toolchain ↦ unless_blank toolchain (trim toolchain)
    | none ↦
        if host.windows
        then some (codes "nightly-2026-06-07-x86_64-pc-windows-gnu")
        else some (codes "nightly-2026-06-07")
  ]

  unfoldable pub cargo_command : Command P
  cargo_command = elim preferred_rustup_toolchain as (λ t. Command P) [
    | none ↦ command (codes "cargo" ∷ [])
    | some toolchain ↦ command (codes "cargo" ∷ (codes "+" ++ toolchain) ∷ [])
  ]

  unfoldable pub build_kernel : S → P → Result S
  build_kernel s root =
      run_command host s
        (current_dir root (
          arg cargo_command (
            codes "build"
            ∷ codes "--locked"
            ∷ codes "--package"
            ∷ codes "aether-kernel"
            ∷ codes "--target"
            ∷ codes "config/target/x86_64-aetheros.json"
            ∷ codes "-Zbuild-std=core,alloc,compiler_builtins"
            ∷ codes "-Zbuild-std-features=compiler-builtins-mem"
            ∷ codes "-Zjson-target-spec"
            ∷ [])))
        (codes "cargo build")

  unfoldable pub locate_kernel_binary : S → P → Result P
  locate_kernel_binary s root =
      let target_dir =
        host.join (host.join (host.join root (codes "target")) (codes "x86_64-aetheros"))
          (codes "debug") in
      ok_or (codes "could not find built kernel binary in " ++ host.show target_dir) (
        find_existing host s (
          host.join target_dir (codes "aether-kernel")
          ∷ host.join target_dir (codes "aether-kernel.exe")
          ∷ host.join target_dir (codes "aether-kernel.bin")
          ∷ []))

  unfoldable pub locate_limine_config : S → P → Result P
  locate_limine_config s root =
      let boot = host.join (host.join root (codes "config")) (codes "boot") in
      ok_or (codes "could not find Limine configuration in config/boot") (
        find_existing host s
          (host.join boot (codes "limine.conf") ∷ host.join boot (codes "limine.cfg") ∷ []))

  unfoldable pub recreate_directory : S → P → Result S
  recreate_directory s path =
      (if host.exists s path then host.remove_dir_all s path else ok s) >>= λ s'.
      host.create_dir_all s' path

  abbrev pub stage_dir : P → P
  stage_dir root = host.join (host.join root (codes "dist")) (codes "esp")

  abbrev pub efi_boot_dir : P → P
  efi_boot_dir root = host.join (stage_dir root) (codes "EFI/BOOT")

  abbrev pub copied : Text → (source dest : P) → S → Result S
  copied message source dest s = map_err (λ e. message ++ e) (host.copy s source dest)

  abbrev pub copy_kernel : (root kernel_source : P) → S → Result S
  copy_kernel root kernel_source s =
      copied (codes "failed to copy kernel binary from " ++ host.debug kernel_source ++ codes ": ")
        kernel_source (host.join (stage_dir root) (codes "kernel.elf")) s

  abbrev pub copy_config : (root limine_cfg_src : P) → S → Result S
  copy_config root limine_cfg_src s =
      copied (codes "failed to copy Limine configuration: ") limine_cfg_src
        (host.join (stage_dir root) (codes "limine.conf")) s

  abbrev pub copy_efi_config : (root limine_cfg_src : P) → S → Result S
  copy_efi_config root limine_cfg_src s =
      copied (codes "failed to copy EFI-local Limine configuration: ") limine_cfg_src
        (host.join (efi_boot_dir root) (codes "limine.conf")) s

  abbrev pub copy_loader : (root limine_dir : P) → S → Result S
  copy_loader root limine_dir s =
      copied (codes "failed to copy BOOTX64.EFI: ") (host.join limine_dir (codes "BOOTX64.EFI"))
        (host.join (efi_boot_dir root) (codes "BOOTX64.EFI")) s

  -- The copies of `stage_boot_tree`.
  unfoldable pub copy_tree : (root kernel_source limine_cfg_src limine_dir : P) → S → Result S
  copy_tree root kernel_source limine_cfg_src limine_dir s =
      copy_kernel root kernel_source s
      >>= copy_config root limine_cfg_src
      >>= copy_efi_config root limine_cfg_src
      >>= copy_loader root limine_dir

  -- The directories of `stage_boot_tree`.
  unfoldable pub make_directories : P → S → Result S
  make_directories root s =
      map_err (λ e. codes "failed to create staging tree: " ++ e)
        (recreate_directory s (stage_dir root))
      >>= λ s'.
          map_err (λ e. codes "failed to create EFI boot directory: " ++ e)
            (host.create_dir_all s' (efi_boot_dir root))

  -- `stage_boot_tree` once the bundle, the kernel and the configuration are found.
  unfoldable pub fill_tree : (root limine_dir kernel_source limine_cfg_src : P) → S → Result S
  fill_tree root limine_dir kernel_source limine_cfg_src s =
      make_directories root s >>= copy_tree root kernel_source limine_cfg_src limine_dir

  -- `stage_boot_tree` once the kernel is built, and once the bundle is there.
  unfoldable pub stage_from : P → P × S → Result S
  stage_from root limine = locate_kernel_binary limine.1 root >>= λ kernel_source.
      locate_limine_config limine.1 root >>= λ limine_cfg_src.
      fill_tree root limine.0 kernel_source limine_cfg_src limine.1

  unfoldable pub stage_built : P → S → Result S
  stage_built root s = ensure_limine_bundle host s root >>= stage_from root

  unfoldable pub stage_boot_tree : S → P → Result S
  stage_boot_tree s root = build_kernel s root >>= stage_built root

  -- A variable of the environment that names a path that exists.
  unfoldable pub env_path : S → Text → Option P
  env_path s name = elim (host.var name) [
    | none ↦ none
    | some path ↦ if host.exists s (host.from path) then some (host.from path) else none
  ]

  unfoldable pub find_qemu_binary : S → Option Text
  find_qemu_binary s =
      let fallback = host.from (codes "C:\\Program Files\\qemu\\qemu-system-x86_64.exe") in
      elim (find_command host s (codes "qemu-system-x86_64")) [
        | some qemu ↦ some qemu
        | none ↦ if host.exists s fallback then some (host.show fallback) else none
      ]
