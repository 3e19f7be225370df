-- ===== src/Fs/Vfs/Keeps.antt =====
-- `write` and `remove` of kernel/src/fs/vfs.rs keep the overlay's invariant.
use aetheros_rust_project.Prelude.{
  suc, ◌≤◌, ◌≡◌, refl, ◌∙◌, ap, ◌⊎◌, Bool, true, false, [], ◌∷◌, none, some, arith, length, inl,
  inr, All, Option-cases,
}
use aetheros_rust_project.Prelude.Text.{Text}
use aetheros_rust_project.Prelude.Str.{is_str}
use aetheros_rust_project.Fs.Vfs.{
  OverlayFile, Overlay, write_entry, matches, empty_file, update_first, is_free, max_path_len,
  max_content_len, write_normalized, remove_normalized, ok,
}
use aetheros_rust_project.Fs.Vfs.Entries.{matches_used, matches_path}
use aetheros_rust_project.Fs.Vfs.Overlay.{lookup, update_first-cons, lookup-overwrite, lookup-fill}
use aetheros_rust_project.Fs.Vfs.Valid.{
  IsEntry, IsUnique, IsValid, path_of, path_of-ne, path_of-write_entry, write_entry-IsEntry,
  empty_file-IsEntry, lookup-clear,
}

length-update_first :
    (p : OverlayFile → Bool) (f : OverlayFile → OverlayFile) (files files' : Overlay)
    → update_first p f files ≡ some files'
    → length files' ≡ length files
length-update_first p f [] files' e = unfold update_first in cc
length-update_first p f (x ∷ files) files' e = elim (update_first-cons p f x files files' e) [
  | inl (hit, now) ↦ rw now
  | inr (rest, miss, more, now) ↦ rw now (ap suc (length-update_first p f files rest more))
]

update_first-All :
    (P : OverlayFile → Type 0) (p : OverlayFile → Bool) (f : OverlayFile → OverlayFile)
    → ((x : OverlayFile) → P x → P (f x))
    → (files files' : Overlay) → update_first p f files ≡ some files'
    → All P files
    → All P files'
update_first-All P p f keep [] files' e h = unfold update_first in cc
update_first-All P p f keep (x ∷ files) files' e h = elim (update_first-cons p f x files files' e) [
  | inl (hit, now) ↦ rw now (keep x h.0, h.1)
  | inr (rest, miss, more, now) ↦ rw now (h.0, update_first-All P p f keep files rest more h.1)
]

overwrite-IsUnique :
    (n c : Text) (files files' : Overlay)
    → update_first (matches n) (write_entry n c) files ≡ some files'
    → All IsEntry files
    → IsUnique files
    → IsUnique files'
overwrite-IsUnique n c [] files' e v u = unfold update_first in cc
overwrite-IsUnique n c (x ∷ files) files' e v u =
    elim (update_first-cons (matches n) (write_entry n c) x files files' e) [
      | inl (hit, now) ↦ rw now (
        (λ q.
            rw (path_of-write_entry n c x)
              (rw (matches_path n x hit) at (u.0 (matches_used n x hit)))),
        u.1,
      )
      | inr (rest, miss, more, now) ↦ rw now (
        (λ q.
            lookup-overwrite files rest n c (path_of x) more
            ∙ ground (arith, path_of-ne n x v.0 q miss, u.0 q)),
        overwrite-IsUnique n c files rest more v.1 u.1,
      )
    ]

fill-IsUnique :
    (n c : Text) (files files' : Overlay)
    → lookup files n ≡ none
    → update_first is_free (write_entry n c) files ≡ some files'
    → All IsEntry files
    → IsUnique files
    → IsUnique files'
unfolding lookup
fill-IsUnique n c [] files' new e v u = unfold update_first in cc
fill-IsUnique n c (x ∷ files) files' new e v u =
    let miss : matches n x ≡ false = ground arith in
    let later : lookup files n ≡ none = ground arith in
    elim (update_first-cons is_free (write_entry n c) x files files' e) [
      | inl (free, now) ↦ rw now ((λ q. rw (path_of-write_entry n c x) later), u.1)
      | inr (rest, busy, more, now) ↦ rw now (
        (λ q.
            lookup-fill files rest n c (path_of x) later more
            ∙ ground (arith, path_of-ne n x v.0 q miss, u.0 q)),
        fill-IsUnique n c files rest later more v.1 u.1,
      )
    ]

clear-IsUnique :
    (n : Text) (files files' : Overlay)
    → update_first (matches n) (λ e. empty_file) files ≡ some files'
    → IsUnique files
    → IsUnique files'
clear-IsUnique n [] files' e u = unfold update_first in cc
clear-IsUnique n (x ∷ files) files' e u =
    elim (update_first-cons (matches n) (λ y. empty_file) x files files' e) [
      | inl (hit, now) ↦ rw now ((λ q. cc), u.1)
      | inr (rest, miss, more, now) ↦ rw now (
        (λ q. lookup-clear files rest n (path_of x) u.1 more ∙ ground (arith, u.0 q)),
        clear-IsUnique n files rest more u.1,
      )
    ]

pub lookup-none :
    (n : Text) (files : Overlay) (f : OverlayFile → OverlayFile)
    → update_first (matches n) f files ≡ none
    → lookup files n ≡ none
unfolding lookup update_first
lookup-none n [] f e = refl
lookup-none n (x ∷ files) f e = elim (Option-cases (update_first (matches n) f files)) [
  | inl gone ↦ ground (arith, lookup-none n files f gone)
  | inr (rest, more) ↦ ground (arith, more)
]

-- A successful write of a normalized path overwrote its entry, or filled a free one.
pub write_normalized-ok :
    (files files' : Overlay) (n c : Text)
    → write_normalized files n c ≡ ok files'
    → (length c ≤ max_content_len)
      × ((update_first (matches n) (write_entry n c) files ≡ some files')
          ⊎ ((lookup files n ≡ none)
              × (update_first is_free (write_entry n c) files ≡ some files')))
unfolding write_normalized
write_normalized-ok files files' n c e =
    elim (Option-cases (update_first (matches n) (write_entry n c) files)) [
      | inl gone ↦
          (ground arith, inr (lookup-none n files (write_entry n c) gone, ground (arith, gone)))
      | inr (rest, more) ↦ (ground arith, inl (ground (arith, more)))
    ]

pub write_normalized-IsValid :
    (files files' : Overlay) (n c : Text)
    → length n ≤ max_path_len
    → is_str c ≡ true
    → write_normalized files n c ≡ ok files'
    → IsValid files
    → IsValid files'
write_normalized-IsValid files files' n c hn sc e v =
    let (hc, how) = write_normalized-ok files files' n c e in
    let keep = λ (x : OverlayFile) (h : IsEntry x). write_entry-IsEntry n c x hn hc sc h in
    elim how [
      | inl over ↦ record {
        size = length-update_first (matches n) (write_entry n c) files files' over ∙ v.size;
        entries =
            update_first-All IsEntry (matches n) (write_entry n c) keep files files' over v.entries;
        unique = overwrite-IsUnique n c files files' over v.entries v.unique;
      }
      | inr (new, fill) ↦ record {
        size = length-update_first is_free (write_entry n c) files files' fill ∙ v.size;
        entries =
            update_first-All IsEntry is_free (write_entry n c) keep files files' fill v.entries;
        unique = fill-IsUnique n c files files' new fill v.entries v.unique;
      }
    ]

pub remove_normalized-ok :
    (files files' : Overlay) (n : Text)
    → remove_normalized files n ≡ ok files'
    → update_first (matches n) (λ e. empty_file) files ≡ some files'
unfolding remove_normalized
remove_normalized-ok files files' n e =
    elim (Option-cases (update_first (matches n) (λ x. empty_file) files)) [
      | inl gone ↦ ground (arith, gone)
      | inr (rest, more) ↦ ground (arith, more)
    ]

pub remove_normalized-IsValid :
    (files files' : Overlay) (n : Text)
    → remove_normalized files n ≡ ok files'
    → IsValid files
    → IsValid files'
remove_normalized-IsValid files files' n e v =
    let clear = remove_normalized-ok files files' n e in
    record {
      size = length-update_first (matches n) (λ x. empty_file) files files' clear ∙ v.size;
      entries =
          update_first-All IsEntry (matches n) (λ x. empty_file) (λ x h. empty_file-IsEntry) files
            files' clear v.entries;
      unique = clear-IsUnique n files files' clear v.unique;
    }
