-- ===== src/Xtask/Stage.antt =====
-- How the xtask gets the boot tree together. `S` is the state of the file system, and `P` are the
-- paths of the standard library.
pub mod Tree
pub mod Qemu
pub mod Verified
pub mod Staged
mod Tests
use mathlib.Core.Option
use aetheros_rust_project.Prelude.{
  Bool, List, [], ◌∷◌, ◌++◌, Option, none, some, if◌then◌else◌, bytes_eq,
}
use aetheros_rust_project.Prelude.Text.{Text, codes}
use aetheros_rust_project.Xtask.{Result, err, ok, ◌>>=◌, map_err}

abbrev pub limine_download_url : Text
limine_download_url =
    codes "https://github.com/limine-bootloader/limine/releases/download/v12.3.2/limine-binary.zip"

abbrev pub limine_download_sha256 : Text
limine_download_sha256 = codes "381c55e475a5b6f88afa73bb683fe985fb0d2c4252bfcf02420932c4a112fc8d"

-- A program with its arguments, among which a path is shown, and the directory that it starts in, if
-- that is not the one of the xtask.
pub record Command (P : Type 0) : Type 0 where
  pub args : List Text
  pub directory : Option P

-- `Command::new` and `arg`
abbrev pub command : {P : Type 0} → List Text → Command P
command args = record { args = args; directory = none }

abbrev pub arg : {P : Type 0} → Command P → List Text → Command P
arg c more = record c { args = c.args ++ more }

-- `current_dir`
abbrev pub current_dir : {P : Type 0} → P → Command P → Command P
current_dir path c = record c { directory = some path }

-- What the host has: files, programs, the variables of the environment, SHA-256 in hexadecimal.
-- `status` is the exit status of a command as it is shown, or none if it succeeded.
pub record Host (S P : Type 0) : Type 0 where
  pub exists : S → P → Bool
  pub read : S → P → Result Text
  pub remove_dir_all : S → P → Result S
  pub create_dir_all : S → P → Result S
  pub copy : S → P → P → Result S
  pub status : S → Command P → Result (Option Text × S)
  pub var : Text → Option Text
  pub split_paths : Text → List P
  pub from : Text → P
  pub join : P → Text → P
  pub show : P → Text
  pub debug : P → Text
  pub sha256 : Text → Text
  pub windows : Bool

module _ {S P : Type 0} (host : Host S P) where
  unfoldable pub run_command : S → Command P → Text → Result S
  run_command s program label =
      map_err (λ e. codes "failed to start " ++ label ++ codes ": " ++ e) (host.status s program)
      >>= λ r. elim r.0 [
        | none ↦ ok r.1
        | some status ↦ err (label ++ codes " exited with status " ++ status)
      ]

  -- `candidates.into_iter().find(|path| path.exists())`
  unfoldable pub find_existing : S → List P → Option P
  find_existing s [] = none
  find_existing s (path ∷ paths) =
      let rest = find_existing s paths in if host.exists s path then some path else rest

  unfoldable pub command_candidates : P → Text → List P
  command_candidates base name =
      host.join base name
      ∷ (if host.windows
          then host.join base (name ++ codes ".exe")
            ∷ host.join base (name ++ codes ".cmd")
            ∷ host.join base (name ++ codes ".bat")
            ∷ []
          else [])

  abbrev candidates_in : List P → Text → List P
  candidates_in [] name = []
  candidates_in (path ∷ paths) name = command_candidates path name ++ candidates_in paths name

  unfoldable pub find_command : S → Text → Option Text
  find_command s name = elim (host.var (codes "PATH")) [
    | none ↦ none
    | some paths ↦
        Option.map host.show (find_existing s (candidates_in (host.split_paths paths) name))
  ]

  unfoldable pub verify_sha256 : S → P → Text → Result (Unit {0})
  verify_sha256 s path expected =
      map_err (λ e. codes "failed to read " ++ host.show path ++ codes " for verification: " ++ e)
        (host.read s path)
      >>= λ bytes.
          let actual = host.sha256 bytes in
          if bytes_eq actual expected
          then ok tt
          else err (
              codes "SHA-256 mismatch for "
              ++ host.show path
              ++ codes ": expected "
              ++ expected
              ++ codes ", got "
              ++ actual)

  unfoldable pub download_file : S → Text → P → Result S
  download_file s url destination =
      let label = codes "download Limine bundle" in
      if host.windows
      then run_command s
          (command (
            codes "powershell"
            ∷ codes "-NoProfile"
            ∷ codes "-Command"
            ∷ (codes "$ProgressPreference='SilentlyContinue'; Invoke-WebRequest -Uri '"
                ++ url
                ++ codes "' -OutFile '"
                ++ host.show destination
                ++ codes "'")
            ∷ []))
          label
      else elim (find_command s (codes "curl")) as (λ c. Result S) [
        | none ↦
            err (codes "failed to download Limine bundle: neither PowerShell nor curl is available")
        | some curl ↦
            run_command s
              (command (curl ∷ codes "-L" ∷ url ∷ codes "-o" ∷ host.show destination ∷ [])) label
      ]

  -- The end of `extract_zip`.
  unfoldable pub unpack : S → P → P → Result S
  unpack s archive_path destination =
      let label = codes "extract Limine bundle" in
      if host.windows
      then run_command s
          (command (
            codes "powershell"
            ∷ codes "-NoProfile"
            ∷ codes "-Command"
            ∷ (codes
                  "Add-Type -AssemblyName System.IO.Compression.FileSystem; [System.IO.Compression.ZipFile]::ExtractToDirectory('"
                ++ host.show archive_path
                ++ codes "', '"
                ++ host.show destination
                ++ codes "')")
            ∷ []))
          label
      else elim (find_command s (codes "unzip")) as (λ c. Result S) [
        | none ↦ err (codes "failed to extract Limine bundle: unzip support is unavailable")
        | some unzip ↦
            run_command s
              (command (
                unzip
                ∷ codes "-o"
                ∷ host.show archive_path
                ∷ codes "-d"
                ∷ host.show destination
                ∷ []))
              label
      ]

  unfoldable pub extract_zip : S → P → P → Result S
  extract_zip s archive_path destination =
      let extracted_root = host.join destination (codes "limine-binary") in
      (if host.exists s extracted_root
        then map_err (λ e. codes "failed to clear Limine cache: " ++ e)
            (host.remove_dir_all s extracted_root)
        else ok s)
      >>= λ s'. unpack s' archive_path destination

  abbrev pub cache_dir : P → P
  cache_dir root = host.join (host.join root (codes "dist")) (codes "limine-v12.3.2")

  abbrev pub archive_path : P → P
  archive_path root = host.join (cache_dir root) (codes "limine-binary.zip")

  -- `download_and_extract_limine` up to the download, and what follows it.
  unfoldable pub download_archive : S → P → Result S
  download_archive s root =
      map_err (λ e. codes "failed to create Limine cache directory: " ++ e)
        (host.create_dir_all s (cache_dir root))
      >>= λ s'. download_file s' limine_download_url (archive_path root)

  unfoldable pub extract_verified : P → S → Result S
  extract_verified root s =
      verify_sha256 s (archive_path root) limine_download_sha256 >>= λ verified.
      extract_zip s (archive_path root) (cache_dir root)

  unfoldable pub download_and_extract_limine : S → P → Result S
  download_and_extract_limine s root = download_archive s root >>= extract_verified root

  unfoldable pub ensure_limine_bundle : S → P → Result (P × S)
  ensure_limine_bundle s root =
      let limine_dir = host.join (cache_dir root) (codes "limine-binary") in
      let bootx64 = host.join limine_dir (codes "BOOTX64.EFI") in
      if host.exists s bootx64
      then ok (limine_dir, s)
      else download_and_extract_limine s root >>= λ s'.
          if host.exists s' bootx64
          then ok (limine_dir, s')
          else err (
              codes "Limine bundle was downloaded but " ++ host.show bootx64 ++ codes " is missing")
