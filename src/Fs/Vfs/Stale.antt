-- ===== src/Fs/Vfs/Stale.antt =====
-- The `&'static str` that `read` of kernel/src/fs/vfs.rs leaks points into the overlay, which later
-- calls change.

use aetheros_rust_project.Prelude.{
  ℕ, zero, suc, ◌≤◌, ◌<◌, ◌≡◌, refl, Bool, [], ◌∷◌, some, arith, length, set, get_or,
  get_or-set_self, take-replicate, replicate, length-take, Bool-cases, inl, inr, Option-cases, All,
}
use aetheros_rust_project.Prelude.Text.{Text}
use aetheros_rust_project.Prelude.Str.{is_str}
use aetheros_rust_project.Fs.Vfs.{
  Overlay, OverlayFile, leaked, deref, position, update_first, matches, empty_file, contents_bytes,
  read, find, read_normalized, read_overlay, remove, ok, max_content_len,
}
use aetheros_rust_project.Fs.Vfs.Valid.{IsValid, IsEntry}
use aetheros_rust_project.Fs.Vfs.Keeps.{remove_normalized-ok}
use aetheros_rust_project.Fs.Vfs.Laws.{remove-ok}

-- A change is made in the slot that the search finds.
update_first-position :
    (p : OverlayFile → Bool) (f : OverlayFile → OverlayFile) (files : Overlay) {i : ℕ}
    → position p files ≡ some i
    → (update_first p f files ≡ some (set files i (f (get_or files i empty_file))))
      × (i < length files)
unfolding position update_first
update_first-position p f [] e = cc
update_first-position p f (x ∷ files) {i} e = elim (Bool-cases (p x)) [
  | inl hit ↦ let first : i ≡ 0 = ground arith in rw (first, hit) (refl, omega arith)
  | inr miss ↦ elim (Option-cases (position p files)) [
    | inl gone ↦ absurd (ground (arith, gone))
    | inr (j, found) ↦
        let later : i ≡ suc j = ground (arith, found) in
        let (changed, inside) = update_first-position p f files found in
        rw (later, miss, changed) (refl, omega arith)
  ]
]

-- A reference that points into a slot comes from the entry that the search for the path finds.
read_overlay-leaked :
    (files : Overlay) (n : Text) {slot len : ℕ}
    → read_overlay files n ≡ some (leaked slot len)
    → (position (matches n) files ≡ some slot)
      × (len ≡ length (contents_bytes (get_or files slot empty_file)))
unfolding read_overlay
read_overlay-leaked files n {slot} {len} e = elim (Option-cases (position (matches n) files)) [
  | inl gone ↦ absurd (ground (arith, gone))
  | inr (i, found) ↦ elim (Bool-cases (is_str (contents_bytes (get_or files i empty_file)))) [
    | inl valid ↦
        let same : i ≡ slot = ground (arith, found, valid) in
        rw (← same) (found, ground (arith, found, valid))
    | inr not_valid ↦ absurd (ground (arith, found, not_valid))
  ]
]

read_normalized-leaked :
    (files : Overlay) (n : Text) {slot len : ℕ}
    → read_normalized files n ≡ some (leaked slot len)
    → read_overlay files n ≡ some (leaked slot len)
unfolding read_normalized
read_normalized-leaked files n {slot} {len} e = elim (Option-cases (read_overlay files n)) [
  | inl gone ↦ elim (Option-cases (find n)) [
    | inl missing ↦ absurd (ground (arith, gone, missing))
    | inr (f, built_in) ↦ absurd (ground (arith, gone, built_in))
  ]
  | inr (r, found) ↦ ground (arith, found)
]

get_or-contents :
    (files : Overlay) (i : ℕ)
    → All IsEntry files
    → length (get_or files i empty_file).contents ≡ max_content_len
get_or-contents [] i v = refl
get_or-contents (x ∷ files) zero v = v.0.contents_size
get_or-contents (x ∷ files) (suc i) v = get_or-contents files i v.1

-- The reference that `read` gave for a path whose entry is in the overlay shows zeros, as many as the
-- text had bytes, once `remove` has removed the path from a valid overlay.
pub stale :
    (files files' : Overlay) (p : Text) {slot len : ℕ}
    → IsValid files
    → read files p ≡ some (leaked slot len)
    → remove files p ≡ ok files'
    → deref files' (leaked slot len) ≡ replicate len 0
unfolding deref read contents_bytes
stale files files' p {slot} {len} v e r =
    let (n, norm, removed) = remove-ok files files' p r in
    let found : read_normalized files n ≡ some (leaked slot len) = ground (arith, norm) in
    let (here, size) = read_overlay-leaked files n (read_normalized-leaked files n found) in
    let entry = get_or files slot empty_file in
    let fits : len ≤ max_content_len = omega (
      arith,
      size,
      length-take entry.contents_len entry.contents,
      get_or-contents files slot v.entries,
    ) in
    let (changed, inside) = update_first-position (matches n) (λ x. empty_file) files here in
    let now : files' ≡ set files slot empty_file =
      ground (arith, remove_normalized-ok files files' n removed, changed) in
    rw (now, get_or-set_self files slot empty_file empty_file inside)
      (take-replicate len max_content_len 0 fits)
