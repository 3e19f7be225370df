-- ===== src/Fs/Vfs.antt =====
-- kernel/src/fs/vfs.rs: a writable overlay of eight small files above the initramfs. A text is the
-- list of its UTF-8 bytes; `StrRef` is a `&'static str`, whose bytes are read when it is used.
pub mod Overlay
pub mod Entries
pub mod Valid
pub mod Keeps
pub mod Laws
pub mod Errors
pub mod Stale
pub mod Listing
mod Tests
use mathlib.Core.Option
use aetheros_rust_project.Prelude.{
  ℕ, suc, ◌+◌, ◌≡◌, refl, Bool, true, false, not, ◌&&◌, ◌||◌, List, [], ◌∷◌, ◌++◌, Option, none,
  some, length, take, drop, get_or, replicate, ltb, ◌==◌, if◌then◌else◌, bytes_eq,
}
use aetheros_rust_project.Prelude.Text.{Text, codes}
use aetheros_rust_project.Prelude.Str.{from_utf8, trim}
use aetheros_rust_project.Fs.Initramfs.{InitramfsFile}
use aetheros_rust_project.Fs.Initramfs

abbrev pub max_overlay_files : ℕ
max_overlay_files = 8

abbrev pub max_path_len : ℕ
max_path_len = 32

abbrev pub max_content_len : ℕ
max_content_len = 256

pub data VfsError : Type 0 where
  invalid_path path_too_long content_too_long no_space read_only not_found : VfsError

-- `VfsError::message`
unfoldable pub message : VfsError → Text
message invalid_path = codes "invalid path"
message path_too_long = codes "path too long"
message content_too_long = codes "content too long"
message no_space = codes "filesystem overlay full"
message read_only = codes "cannot remove read-only initramfs file"
message not_found = codes "file not found"

pub data Result {ℓ} (T : Type ℓ) : Type ℓ where
  err : VfsError → Result T
  ok : T → Result T

-- What `?` does.
infixl 5 ◌>>=◌
abbrev pub ◌>>=◌ {ℓ ℓ'} : {T : Type ℓ} {U : Type ℓ'} → Result T → (T → Result U) → Result U
err e >>= next = err e
ok t >>= next = next t

-- A chain that succeeds has succeeded in both of its steps.
pub >>=-ok {ℓ ℓ'} :
    {T : Type ℓ} {U : Type ℓ'} {u : U} (step : Result T) (next : T → Result U)
    → (step >>= next) ≡ ok u
    → (t : T) × (step ≡ ok t) × (next t ≡ ok u)
>>=-ok (err e) next h = cc
>>=-ok (ok t) next h = (t, refl, h)

-- `path` has 32 bytes and `contents` 256.
pub record OverlayFile : Type 0 where
  pub used : Bool
  pub path_len : ℕ
  pub contents_len : ℕ
  pub path : Text
  pub contents : Text

-- `OverlayFile::EMPTY`
abbrev pub empty_file : OverlayFile
empty_file = record {
  used = false;
  path_len = 0;
  contents_len = 0;
  path = replicate max_path_len 0;
  contents = replicate max_content_len 0;
}

-- `buffer[..bytes.len()].copy_from_slice(bytes)`, for bytes that fit.
abbrev pub copy_front : Text → Text → Text
copy_front bytes buffer = bytes ++ drop (length bytes) buffer

-- `OverlayFile::write`
unfoldable pub write_entry : Text → Text → OverlayFile → OverlayFile
write_entry path contents e = record {
  used = true;
  path_len = length path;
  contents_len = length contents;
  path = copy_front path e.path;
  contents = copy_front contents e.contents;
}

-- `OverlayFile::matches`
unfoldable pub matches : Text → OverlayFile → Bool
matches path e = e.used && (e.path_len == length path) && bytes_eq (take e.path_len e.path) path

-- `OverlayFile::path`
unfoldable pub entry_path : OverlayFile → Option Text
entry_path e = from_utf8 (take e.path_len e.path)

-- `OverlayFile::contents_bytes`
unfoldable pub contents_bytes : OverlayFile → Text
contents_bytes e = take e.contents_len e.contents

abbrev pub is_free : OverlayFile → Bool
is_free e = not e.used

-- `WRITABLE_FILES`
abbrev pub Overlay : Type 0
Overlay = List OverlayFile

-- What `initialize` stores, the first time that it is called.
abbrev pub initial_overlay : Overlay
initial_overlay = replicate max_overlay_files empty_file

-- The index that `iter().find(p)` stops at.
unfoldable pub position : (OverlayFile → Bool) → Overlay → Option ℕ
position p [] = none
position p (e ∷ es) = if p e then some 0 else Option.map suc (position p es)

-- `iter_mut().find(p)` followed by a change of the entry that it found.
unfoldable pub update_first :
    (OverlayFile → Bool) → (OverlayFile → OverlayFile) → Overlay → Option Overlay
update_first p f [] = none
update_first p f (e ∷ es) =
    if p e then some (f e ∷ es) else Option.map (◌∷◌ e) (update_first p f es)

unfoldable pub copy_with_slash_prefix : Text → Result Text
copy_with_slash_prefix path =
    if ltb max_path_len (length path + 1)
    then err path_too_long
    else elim (from_utf8 (b'/' ∷ path)) [ none ↦ err invalid_path | some s ↦ ok s ]

-- `normalize_path` of the trimmed path.
unfoldable pub normalize_trimmed : Text → Result Text
unfolding copy_with_slash_prefix
normalize_trimmed [] = err invalid_path
normalize_trimmed (b ∷ bs) = do
  normalized ← if b == b'/' then ok (b ∷ bs) else copy_with_slash_prefix (b ∷ bs)
  if ltb max_path_len (length normalized) then err path_too_long else ok normalized

unfoldable pub normalize_path : Text → Result Text
unfolding normalize_trimmed
normalize_path path = normalize_trimmed (trim path)

-- `find`: the initramfs file of a path.
unfoldable pub find_in : List InitramfsFile → Text → Option InitramfsFile
find_in [] path = none
find_in (f ∷ fs) path = if bytes_eq f.path path then some f else find_in fs path

unfoldable pub find : Text → Option InitramfsFile
unfolding find_in
find path = find_in Initramfs.files path

-- A `&'static str`: into the contents of an overlay slot (`leak_str`), or into the kernel image.
pub data StrRef : Type 0 where
  leaked : (slot len : ℕ) → StrRef
  static : Text → StrRef

unfoldable pub deref : Overlay → StrRef → Text
deref files (leaked slot len) = take len (get_or files slot empty_file).contents
deref files (static text) = text

-- `read_overlay`
unfoldable pub read_overlay : Overlay → Text → Option StrRef
unfolding position contents_bytes
read_overlay files path = elim (position (matches path) files) [
  | none ↦ none
  | some slot ↦
      let entry = get_or files slot empty_file in
      Option.map (λ text. leaked slot (length text)) (from_utf8 (contents_bytes entry))
]

abbrev or_else : Option StrRef → Option StrRef → Option StrRef
or_else none r = r
or_else (some s) r = some s

-- `read` of a path that is normalized.
unfoldable pub read_normalized : Overlay → Text → Option StrRef
unfolding read_overlay find
read_normalized files path =
    or_else (read_overlay files path) (Option.map (λ f. static f.contents) (find path))

unfoldable pub read : Overlay → Text → Option StrRef
read files path = elim (normalize_path path) [ err e ↦ none | ok n ↦ read_normalized files n ]

abbrev is_some {ℓ} : {A : Type ℓ} → Option A → Bool
is_some none = false
is_some (some a) = true

unfoldable pub exists : Overlay → Text → Bool
exists files path = elim (normalize_path path) [
  | err e ↦ false
  | ok n ↦ is_some (read_overlay files n) || is_some (find n)
]

-- `write` of a path that is normalized.
unfoldable pub write_normalized : Overlay → Text → Text → Result Overlay
unfolding update_first matches write_entry
write_normalized files path contents =
    if ltb max_content_len (length contents)
    then err content_too_long
    else elim (update_first (matches path) (write_entry path contents) files) [
      | some files' ↦ ok files'
      | none ↦ elim (update_first is_free (write_entry path contents) files) [
        | some files' ↦ ok files'
        | none ↦ err no_space
      ]
    ]

-- `write`: the new overlay, or the error, with the overlay as it was.
unfoldable pub write : Overlay → Text → Text → Result Overlay
write files path contents = do
  normalized ← normalize_path path
  write_normalized files normalized contents

-- `remove` of a path that is normalized.
unfoldable pub remove_normalized : Overlay → Text → Result Overlay
unfolding update_first matches find
remove_normalized files path = elim (update_first (matches path) (λ e. empty_file) files) [
  | some files' ↦ ok files'
  | none ↦ if is_some (find path) then err read_only else err not_found
]

unfoldable pub remove : Overlay → Text → Result Overlay
remove files path = do normalized ← normalize_path path; remove_normalized files normalized

-- The paths of `for_each_entry`, in the order in which its visitor sees them.
unfoldable pub overlay_paths : Overlay → List Text
unfolding entry_path
overlay_paths [] = []
overlay_paths (e ∷ es) =
    let rest = overlay_paths es in
    if e.used then elim (entry_path e) [ none ↦ rest | some p ↦ p ∷ rest ] else rest

unfoldable pub uncovered_paths : Overlay → List InitramfsFile → List Text
unfolding position matches
uncovered_paths files [] = []
uncovered_paths files (f ∷ fs) =
    let rest = uncovered_paths files fs in
    if is_some (position (matches f.path) files) then rest else f.path ∷ rest

unfoldable pub for_each_entry : Overlay → List Text
unfolding overlay_paths uncovered_paths
for_each_entry files = overlay_paths files ++ uncovered_paths files Initramfs.files
