-- ===== src/Fs/Vfs/Laws.antt =====
-- What `write`, `remove` and `read` of kernel/src/fs/vfs.rs promise together: the overlay is a map
-- from normalized paths to contents, above the initramfs.
use mathlib.Core.Option
use aetheros_rust_project.Prelude.{
  ◌≤◌, ◌≡◌, refl, ◌∙◌, sym, ap, ◌≢◌, true, [], ◌∷◌, Option, none, some, arith, length, get_or,
  bytes_eq, bytes_eq→eq, bytes_eq_refl, if◌then◌else◌, Bool-cases, inl, inr, Option-cases,
  take-length-take,
}
use aetheros_rust_project.Prelude.Text.{Text}
use aetheros_rust_project.Prelude.Str.{is_str, trim}
use aetheros_rust_project.Fs.Initramfs.{InitramfsFile}
use aetheros_rust_project.Fs.Vfs.{
  Overlay, >>=-ok, ok, deref, position, matches, contents_bytes, empty_file, read_overlay,
  read_normalized, read, write_normalized, write, remove_normalized, remove, normalize_path,
  normalize_trimmed, find, max_path_len,
}
use aetheros_rust_project.Fs.Vfs.Overlay.{lookup, lookup-overwrite, lookup-fill}
use aetheros_rust_project.Fs.Vfs.Valid.{IsValid, lookup-clear}
use aetheros_rust_project.Fs.Vfs.Keeps.{
  write_normalized-ok, write_normalized-IsValid, remove_normalized-ok, remove_normalized-IsValid,
}

-- What a reader of a path sees.
abbrev pub contents_at : Overlay → Text → Option Text
contents_at files path = Option.map (deref files) (read files path)

abbrev pub stored : Option Text → Option Text → Option Text
stored none below = below
stored (some c) below = if is_str c then some c else below

abbrev below : Text → Option Text
below n = Option.map (λ (f : InitramfsFile). f.contents) (find n)

-- The slot that is found holds the contents that are looked up.
pub position-lookup :
    (files : Overlay) (n : Text)
    → Option.map
        (λ slot. contents_bytes (get_or files slot empty_file))
        (position (matches n) files)
      ≡ lookup files n
unfolding position lookup
position-lookup [] n = refl
position-lookup (x ∷ files) n = elim (Option-cases (position (matches n) files)) [
  | inl gone ↦ ground (arith, gone, position-lookup files n)
  | inr (i, found) ↦ ground (arith, found, position-lookup files n)
]

-- The reference that is read from an entry shows its contents, if they are a `str`.
pub read_overlay-lookup :
    (files : Overlay) (n : Text)
    → Option.map (deref files) (read_overlay files n) ≡ stored (lookup files n) none
unfolding read_overlay deref
read_overlay-lookup files n = elim (Option-cases (position (matches n) files)) [
  | inl gone ↦ ground (arith, gone, position-lookup files n)
  | inr (i, found) ↦
      let e = get_or files i empty_file in
      elim (Bool-cases (is_str (contents_bytes e))) [
        | inl valid ↦ ground (
          arith,
          found,
          valid,
          position-lookup files n,
          take-length-take e.contents_len e.contents,
        )
        | inr not_valid ↦ ground (arith, found, not_valid, position-lookup files n)
      ]
]

-- What is read of a normalized path is its entry in the overlay, or else its initramfs file.
read_normalized-lookup :
    (files : Overlay) (n : Text)
    → Option.map (deref files) (read_normalized files n) ≡ stored (lookup files n) (below n)
unfolding read_normalized deref
read_normalized-lookup files n = elim (Option-cases (read_overlay files n)) [
  | inl gone ↦ elim (Option-cases (find n)) [
    | inl missing ↦ ground (arith, gone, missing, read_overlay-lookup files n)
    | inr (f, built_in) ↦ ground (arith, gone, built_in, read_overlay-lookup files n)
  ]
  | inr (r, found) ↦ ground (arith, found, read_overlay-lookup files n)
]

contents_at-lookup :
    (files : Overlay) (p : Text) {n : Text}
    → normalize_path p ≡ ok n
    → contents_at files p ≡ stored (lookup files n) (below n)
unfolding read
contents_at-lookup files p {n} e = rw (e, read) (read_normalized-lookup files n)

write-ok :
    (files files' : Overlay) (p c : Text)
    → write files p c ≡ ok files'
    → (n : Text) × (normalize_path p ≡ ok n) × (write_normalized files n c ≡ ok files')
unfolding write
write-ok files files' p c e = >>=-ok (normalize_path p) (λ n. write_normalized files n c) e

lookup-write :
    (files files' : Overlay) (n c m : Text)
    → write_normalized files n c ≡ ok files'
    → lookup files' m ≡ (if bytes_eq n m then some c else lookup files m)
lookup-write files files' n c m e = elim (write_normalized-ok files files' n c e).1 [
  | inl over ↦ lookup-overwrite files files' n c m over
  | inr (new, fill) ↦ lookup-fill files files' n c m new fill
]

-- A `str` that was written to a path without an error is what the path then shows.
pub read-write :
    (files files' : Overlay) (p c : Text)
    → is_str c ≡ true
    → write files p c ≡ ok files'
    → contents_at files' p ≡ some c
read-write files files' p c sc e =
    let (n, norm, w) = write-ok files files' p c e in
    contents_at-lookup files' p norm
    ∙ ground (arith, lookup-write files files' n c n w, bytes_eq_refl n)

-- A write that succeeds does not change what a path shows that normalizes to another one.
pub read-write_ne :
    (files files' : Overlay) (p c q : Text) {n m : Text}
    → normalize_path p ≡ ok n
    → normalize_path q ≡ ok m
    → n ≢ m
    → write files p c ≡ ok files'
    → contents_at files' q ≡ contents_at files q
read-write_ne files files' p c q {n} {m} np nq ne e =
    let (n', norm, w) = write-ok files files' p c e in
    let same : n' ≡ n = ground (arith, norm, np) in
    contents_at-lookup files' q nq
    ∙ ap (λ l. stored l (below m))
        (lookup-write files files' n' c m w ∙ ground (arith, bytes_eq→eq n' m))
    ∙ sym (contents_at-lookup files q nq)

pub remove-ok :
    (files files' : Overlay) (p : Text)
    → remove files p ≡ ok files'
    → (n : Text) × (normalize_path p ≡ ok n) × (remove_normalized files n ≡ ok files')
unfolding remove
remove-ok files files' p e = >>=-ok (normalize_path p) (remove_normalized files) e

-- After a removal from a valid overlay that succeeds, the path shows its initramfs file again, if
-- there is one, and else nothing.
pub read-remove :
    (files files' : Overlay) (p : Text) {n : Text}
    → IsValid files
    → normalize_path p ≡ ok n
    → remove files p ≡ ok files'
    → contents_at files' p ≡ Option.map (λ (f : InitramfsFile). f.contents) (find n)
read-remove files files' p {n} v np e =
    let (n', norm, r) = remove-ok files files' p e in
    let same : n' ≡ n = ground (arith, norm, np) in
    let law = lookup-clear files files' n' n v.unique (remove_normalized-ok files files' n' r) in
    let gone : lookup files' n ≡ none = law ∙ rw same (ground (arith, bytes_eq_refl n)) in
    contents_at-lookup files' p np ∙ ap (λ l. stored l (below n)) gone

-- A removal from a valid overlay that succeeds does not change what a path shows that normalizes to
-- another one.
pub read-remove_ne :
    (files files' : Overlay) (p q : Text) {n m : Text}
    → IsValid files
    → normalize_path p ≡ ok n
    → normalize_path q ≡ ok m
    → n ≢ m
    → remove files p ≡ ok files'
    → contents_at files' q ≡ contents_at files q
read-remove_ne files files' p q {n} {m} v np nq ne e =
    let (n', norm, r) = remove-ok files files' p e in
    let same : n' ≡ n = ground (arith, norm, np) in
    let law = lookup-clear files files' n' m v.unique (remove_normalized-ok files files' n' r) in
    contents_at-lookup files' q nq
    ∙ ap (λ l. stored l (below m)) (law ∙ ground (arith, bytes_eq→eq n' m))
    ∙ sym (contents_at-lookup files q nq)

-- A normalized path fits an entry's array.
normalize_trimmed-fits :
    (t : Text) {n : Text} → normalize_trimmed t ≡ ok n → length n ≤ max_path_len
unfolding normalize_trimmed
normalize_trimmed-fits [] e = cc
normalize_trimmed-fits (b ∷ bs) e = ground arith

pub normalize_path-fits : (p : Text) {n : Text} → normalize_path p ≡ ok n → length n ≤ max_path_len
unfolding normalize_path
normalize_path-fits p e = normalize_trimmed-fits (trim p) e

-- A write of a `str` that succeeds keeps the overlay's invariant.
pub write-IsValid :
    (files files' : Overlay) (p c : Text)
    → is_str c ≡ true
    → IsValid files
    → write files p c ≡ ok files'
    → IsValid files'
write-IsValid files files' p c sc v e =
    let (n, norm, w) = write-ok files files' p c e in
    write_normalized-IsValid files files' n c (normalize_path-fits p norm) sc w v

-- A removal that succeeds keeps the overlay's invariant.
pub remove-IsValid :
    (files files' : Overlay) (p : Text)
    → IsValid files
    → remove files p ≡ ok files'
    → IsValid files'
remove-IsValid files files' p v e =
    let (n, norm, r) = remove-ok files files' p e in remove_normalized-IsValid files files' n r v
