-- ===== src/Xtask/Stage/Tests.antt =====
-- The xtask on a file system that is the list of the paths in it.
use aetheros_rust_project.Prelude.{
  ℕ, ◌≡◌, ◌<◌, refl, ◌⊎◌, Bool, true, false, ◌||◌, List, [], ◌∷◌, ◌++◌, Option, none, some, arith,
  bytes_eq, bytes_eq_refl, if◌then◌else◌,
}
use aetheros_rust_project.Prelude.Text.{Text, codes}
use aetheros_rust_project.Xtask.{ok}
use aetheros_rust_project.Xtask.Stage.{
  Host, limine_download_sha256, run_command, find_existing, find_command, command_candidates,
  verify_sha256, download_file, unpack, extract_zip, download_archive, extract_verified,
  download_and_extract_limine, ensure_limine_bundle,
}
use aetheros_rust_project.Xtask.Stage.Tree.{
  preferred_rustup_toolchain, cargo_command, build_kernel, locate_kernel_binary,
  locate_limine_config, recreate_directory, copy_tree, make_directories, fill_tree, stage_from,
  stage_built, stage_boot_tree,
}
use aetheros_rust_project.Xtask.Stage.Verified.{IsVerified, ensure_limine_bundle-IsVerified}
use aetheros_rust_project.Xtask.Stage.Staged.{IsStaged, HasBundle, Copies, stage_boot_tree-IsStaged}

abbrev elem : Text → List Text → Bool
elem p [] = false
elem p (q ∷ qs) = bytes_eq q p || elem p qs

-- Programs succeed; the archive is its own digest, and `unzip` makes what is in `unzipped`.
abbrev unzipped : Text
unzipped = codes "r/dist/limine-v12.3.2/limine-binary/BOOTX64.EFI"

abbrev var : Text → Option Text
var name =
    if bytes_eq name (codes "PATH")
    then some (codes "/bin")
    else if bytes_eq name (codes "AETHER_QEMU_MONITOR_PORT")
    then some (codes "0")
    else none

abbrev host : Host (List Text) Text
host = record {
  exists = λ s p. elem p s;
  read = λ s p. ok limine_download_sha256;
  remove_dir_all = λ s p. ok s;
  create_dir_all = λ s p. ok s;
  copy = λ s a b. ok (b ∷ s);
  status = λ s c. ok (none, unzipped ∷ s);
  var = var;
  split_paths = λ t. t ∷ [];
  from = λ t. t;
  join = λ p t. p ++ b'/' ∷ t;
  show = λ p. p;
  debug = λ p. p;
  sha256 = λ t. t;
  windows = false;
}

abbrev files : List Text
files =
    codes "/bin/curl"
    ∷ codes "/bin/unzip"
    ∷ codes "r/config/boot/limine.conf"
    ∷ codes "r/target/x86_64-aetheros/debug/aether-kernel"
    ∷ []

bundle_ok :
    ensure_limine_bundle host files (codes "r")
    ≡ ok (codes "r/dist/limine-v12.3.2/limine-binary", unzipped ∷ unzipped ∷ files)
unfolding ensure_limine_bundle download_and_extract_limine download_archive extract_verified
    download_file verify_sha256 extract_zip unpack run_command find_command find_existing
    command_candidates
bundle_ok = refl

staged_ok :
    stage_boot_tree host files (codes "r")
    ≡ ok (
        codes "r/dist/esp/EFI/BOOT/BOOTX64.EFI"
        ∷ codes "r/dist/esp/EFI/BOOT/limine.conf"
        ∷ codes "r/dist/esp/limine.conf"
        ∷ codes "r/dist/esp/kernel.elf"
        ∷ unzipped
        ∷ files)
unfolding stage_boot_tree stage_built stage_from fill_tree make_directories copy_tree build_kernel
    cargo_command preferred_rustup_toolchain locate_kernel_binary locate_limine_config
    recreate_directory ensure_limine_bundle run_command find_existing
staged_ok = refl

host-Copies : Copies host
host-Copies s s' source dest e =
    let same : dest ∷ s ≡ s' = cc in
    rw (← same) (ground (arith, bytes_eq_refl dest), λ p there. ground (arith, there))

ensure_limine_bundle-IsVerified_example :
    (host.exists (unzipped ∷ unzipped ∷ files) unzipped ≡ true)
    × ((unzipped ∷ unzipped ∷ files ≡ files)
        ⊎ IsVerified host (codes "r") (unzipped ∷ unzipped ∷ files))
ensure_limine_bundle-IsVerified_example =
    ensure_limine_bundle-IsVerified host files (unzipped ∷ unzipped ∷ files) (codes "r")
      (codes "r/dist/limine-v12.3.2/limine-binary") bundle_ok

stage_boot_tree-IsStaged_example :
    IsStaged host (codes "r") (
      codes "r/dist/esp/EFI/BOOT/BOOTX64.EFI"
      ∷ codes "r/dist/esp/EFI/BOOT/limine.conf"
      ∷ codes "r/dist/esp/limine.conf"
      ∷ codes "r/dist/esp/kernel.elf"
      ∷ unzipped
      ∷ files)
    × HasBundle host (codes "r") files (
        codes "r/dist/esp/EFI/BOOT/BOOTX64.EFI"
        ∷ codes "r/dist/esp/EFI/BOOT/limine.conf"
        ∷ codes "r/dist/esp/limine.conf"
        ∷ codes "r/dist/esp/kernel.elf"
        ∷ unzipped
        ∷ files)
stage_boot_tree-IsStaged_example =
    stage_boot_tree-IsStaged host files
      (codes "r/dist/esp/EFI/BOOT/BOOTX64.EFI"
        ∷ codes "r/dist/esp/EFI/BOOT/limine.conf"
        ∷ codes "r/dist/esp/limine.conf"
        ∷ codes "r/dist/esp/kernel.elf"
        ∷ unzipped
        ∷ files)
      (codes "r") host-Copies staged_ok

abbrev parse_digit : Text → Option ℕ
parse_digit (d ∷ []) = some 0
parse_digit t = none

parse_digit_small : (t : Text) (n : ℕ) → parse_digit t ≡ some n → n < 65536
parse_digit_small [] n e = absurd cc
parse_digit_small (d ∷ []) n e = let zero_digit : 0 ≡ n = cc in rw (← zero_digit) (omega arith)
parse_digit_small (d ∷ c ∷ t) n e = absurd cc
