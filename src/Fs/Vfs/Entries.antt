-- ===== src/Fs/Vfs/Entries.antt =====
-- One entry of the overlay of kernel/src/fs/vfs.rs: what `write` stores, `matches` finds again.
use aetheros_rust_project.Prelude.{
  ◌≡◌, refl, ◌∙◌, sym, true, false, arith, length, take, drop, take-append, bytes_eq, bytes_eq→eq,
  bytes_eq_refl, ◌==◌, Bool-cases, inl, inr, ==_iff,
}
use aetheros_rust_project.Prelude.Text.{Text}
use aetheros_rust_project.Fs.Vfs.{OverlayFile, write_entry, matches, contents_bytes, empty_file}

length_of_bytes_eq : (xs ys : Text) → bytes_eq xs ys ≡ true → (length xs == length ys) ≡ true
length_of_bytes_eq xs ys h = rw (bytes_eq→eq xs ys h) ((==_iff (length ys) (length ys)).1 refl)

-- A written entry matches exactly its path.
pub matches-write_entry :
    (path contents m : Text) (e : OverlayFile)
    → matches m (write_entry path contents e) ≡ bytes_eq path m
unfolding matches write_entry
matches-write_entry path contents m e =
    rw (take-append path (drop (length path) e.path)) (ground (arith, length_of_bytes_eq path m))

-- A written entry holds exactly its contents.
pub contents_bytes-write_entry :
    (path contents : Text) (e : OverlayFile)
    → contents_bytes (write_entry path contents e) ≡ contents
unfolding contents_bytes write_entry
contents_bytes-write_entry path contents e =
    take-append contents (drop (length contents) e.contents)

pub matches-empty_file : (m : Text) → matches m empty_file ≡ false
unfolding matches
matches-empty_file m = refl

-- An entry that matches is used, and matches no other path.
pub matches_used : (m : Text) (e : OverlayFile) → matches m e ≡ true → e.used ≡ true
unfolding matches
matches_used m e h = ground arith

pub matches_path : (m : Text) (e : OverlayFile) → matches m e ≡ true → take e.path_len e.path ≡ m
unfolding matches
matches_path m e h = bytes_eq→eq (take e.path_len e.path) m (ground arith)

pub matches_same : (n m : Text) (e : OverlayFile) → matches n e ≡ true → matches m e ≡ bytes_eq n m
matches_same n m e h = elim (Bool-cases (bytes_eq n m)) [
  | inl same ↦ rw (← bytes_eq→eq n m same) (h ∙ sym (bytes_eq_refl n))
  | inr other ↦ elim (Bool-cases (matches m e)) [
    | inl both ↦
        absurd (ground (arith, bytes_eq_refl n, sym (matches_path n e h) ∙ matches_path m e both))
    | inr miss ↦ miss ∙ sym other
  ]
]
