-- ===== src/Fs/Vfs/Overlay.antt =====
-- The overlay of kernel/src/fs/vfs.rs as a map from paths to contents, and its three updates.

use aetheros_rust_project.Prelude.{
  ◌≡◌, ◌⊎◌, Bool, true, false, [], ◌∷◌, Option, none, some, arith, bytes_eq, bytes_eq→eq,
  if◌then◌else◌, Bool-cases, Option-cases, inl, inr,
}
use aetheros_rust_project.Prelude.Text.{Text}
use aetheros_rust_project.Fs.Vfs.{
  OverlayFile, Overlay, write_entry, matches, contents_bytes, update_first, is_free,
}
use aetheros_rust_project.Fs.Vfs.Entries.{
  matches-write_entry, contents_bytes-write_entry, matches_used, matches_same,
}

-- The contents of the first entry that matches.
unfoldable pub lookup : Overlay → Text → Option Text
lookup [] m = none
lookup (e ∷ es) m = if matches m e then some (contents_bytes e) else lookup es m

-- A change is made at the first entry, or further on.
pub update_first-cons :
    (p : OverlayFile → Bool) (f : OverlayFile → OverlayFile) (x : OverlayFile)
    (files files' : Overlay)
    → update_first p f (x ∷ files) ≡ some files'
    → ((p x ≡ true) × (files' ≡ f x ∷ files))
      ⊎ ((rest : Overlay) × (p x ≡ false)
          × (update_first p f files ≡ some rest)
          × (files' ≡ x ∷ rest))
unfolding update_first
update_first-cons p f x files files' e = elim (Option-cases (update_first p f files)) [
  | inl gone ↦ ground (arith, gone)
  | inr (rest, more) ↦ elim (Bool-cases (p x)) [
    | inl hit ↦ inl (hit, ground arith)
    | inr miss ↦ inr (rest, miss, more, ground arith)
  ]
]

-- Overwriting the entry of a path changes that path alone.
pub lookup-overwrite :
    (files files' : Overlay) (n c m : Text)
    → update_first (matches n) (write_entry n c) files ≡ some files'
    → lookup files' m ≡ (if bytes_eq n m then some c else lookup files m)
unfolding lookup
lookup-overwrite [] files' n c m e = unfold update_first in cc
lookup-overwrite (x ∷ files) files' n c m e =
    elim (update_first-cons (matches n) (write_entry n c) x files files' e) [
      | inl (hit, now) ↦
          rw (now, lookup)
            (ground (
              arith,
              matches-write_entry n c m x,
              contents_bytes-write_entry n c x,
              matches_same n m x hit,
            ))
      | inr (rest, miss, more, now) ↦
          rw (now, lookup) (ground (arith, lookup-overwrite files rest n c m more, same_path n m))
    ]
  where
    same_path : (a b : Text) → bytes_eq a b ≡ true → a ≡ b
    same_path a b = bytes_eq→eq a b

-- Writing a path that no entry has into the first free entry changes that path alone.
pub lookup-fill :
    (files files' : Overlay) (n c m : Text)
    → lookup files n ≡ none
    → update_first is_free (write_entry n c) files ≡ some files'
    → lookup files' m ≡ (if bytes_eq n m then some c else lookup files m)
unfolding lookup
lookup-fill [] files' n c m new e = unfold update_first in cc
lookup-fill (x ∷ files) files' n c m new e =
    elim (update_first-cons is_free (write_entry n c) x files files' e) [
      | inl (free, now) ↦
          rw (now, lookup)
            (ground (
              arith,
              matches-write_entry n c m x,
              contents_bytes-write_entry n c x,
              matches_used m x,
            ))
      | inr (rest, busy, more, now) ↦
          rw (now, lookup) (ground (arith, lookup-fill files rest n c m, bytes_eq→eq n m))
    ]
