-- ===== src/Fs/Vfs/Valid.antt =====
-- The invariant of the overlay of kernel/src/fs/vfs.rs: eight entries of the arrays' sizes, and no
-- path in two of them.
use aetheros_rust_project.Prelude.{
  ℕ, ◌≤◌, ◌≡◌, refl, true, false, [], ◌∷◌, ◌++◌, none, some, arith, length, length-append,
  length-drop, length-take, take, drop, take-append, bytes_eq, bytes_eq→eq, bytes_eq_refl,
  if◌then◌else◌, Bool-cases, inl, inr, All,
}
use aetheros_rust_project.Prelude.Text.{Text}
use aetheros_rust_project.Prelude.Str.{is_str}
use aetheros_rust_project.Fs.Vfs.{
  OverlayFile, Overlay, initial_overlay, write_entry, matches, contents_bytes, empty_file,
  update_first, max_overlay_files, max_path_len, max_content_len,
}
use aetheros_rust_project.Fs.Vfs.Entries.{
  matches-empty_file, matches_used, matches_same, matches_path,
}
use aetheros_rust_project.Fs.Vfs.Overlay.{lookup, update_first-cons}

abbrev pub path_of : OverlayFile → Text
path_of e = take e.path_len e.path

pub record IsEntry (e : OverlayFile) : Type 0 where
  pub path_size : length e.path ≡ max_path_len
  pub contents_size : length e.contents ≡ max_content_len
  pub path_fits : e.path_len ≤ max_path_len
  pub contents_fits : e.contents_len ≤ max_content_len
  pub contents_str : is_str (contents_bytes e) ≡ true

-- No later entry has the path of a used one.
abbrev pub IsUnique : Overlay → Type 0
IsUnique [] = Unit
IsUnique (e ∷ es) = (e.used ≡ true → lookup es (path_of e) ≡ none) × IsUnique es

pub record IsValid (files : Overlay) : Type 0 where
  pub size : length files ≡ max_overlay_files
  pub entries : All IsEntry files
  pub unique : IsUnique files

-- Clearing the entry of a path removes that path alone.
pub lookup-clear :
    (files files' : Overlay) (n m : Text)
    → IsUnique files
    → update_first (matches n) (λ e. empty_file) files ≡ some files'
    → lookup files' m ≡ (if bytes_eq n m then none else lookup files m)
unfolding lookup
lookup-clear [] files' n m u e = unfold update_first in cc
lookup-clear (x ∷ files) files' n m u e =
    elim (update_first-cons (matches n) (λ y. empty_file) x files files' e) [
      | inl (hit, now) ↦
          let gone : lookup files n ≡ none =
            rw (matches_path n x hit) at (u.0 (matches_used n x hit)) in
          rw (now, lookup)
            (ground (arith, matches-empty_file m, matches_same n m x hit, bytes_eq→eq n m))
      | inr (rest, miss, more, now) ↦
          rw (now, lookup) (ground (arith, lookup-clear files rest n m u.1 more, bytes_eq→eq n m))
    ]

length-copy_front :
    (bytes buffer : Text) (n : ℕ)
    → length buffer ≡ n
    → length bytes ≤ n
    → length (bytes ++ drop (length bytes) buffer) ≡ n
length-copy_front bytes buffer n size fits =
    omega
      (arith, length-append bytes (drop (length bytes) buffer), length-drop (length bytes) buffer)

pub write_entry-IsEntry :
    (n c : Text) (e : OverlayFile)
    → length n ≤ max_path_len
    → length c ≤ max_content_len
    → is_str c ≡ true
    → IsEntry e
    → IsEntry (write_entry n c e)
unfolding write_entry contents_bytes
write_entry-IsEntry n c e hn hc sc v = record {
  path_size = length-copy_front n e.path max_path_len v.path_size hn;
  contents_size = length-copy_front c e.contents max_content_len v.contents_size hc;
  path_fits = hn;
  contents_fits = hc;
  contents_str = rw (take-append c (drop (length c) e.contents)) sc;
}

pub empty_file-IsEntry : IsEntry empty_file
unfolding contents_bytes is_str
empty_file-IsEntry = record {
  path_size = refl;
  contents_size = refl;
  path_fits = omega arith;
  contents_fits = omega arith;
  contents_str = refl;
}

pub initial_overlay-IsValid : IsValid initial_overlay
unfolding is_str
initial_overlay-IsValid =
    let e = empty_file-IsEntry in
    record {
      size = refl;
      entries = (e, (e, (e, (e, (e, (e, (e, (e, tt))))))));
      unique = (
        (λ h. cc),
        (
          (λ h. cc),
          ((λ h. cc), ((λ h. cc), ((λ h. cc), ((λ h. cc), ((λ h. cc), ((λ h. cc), tt)))))),
        ),
      );
    }

-- A used entry matches its own path.
pub matches-path_of : (x : OverlayFile) → IsEntry x → x.used ≡ true → matches (path_of x) x ≡ true
unfolding matches
matches-path_of x v u =
    ground
      (arith, bytes_eq_refl (path_of x), length-take x.path_len x.path, v.path_size, v.path_fits)

pub path_of-write_entry : (n c : Text) (e : OverlayFile) → path_of (write_entry n c e) ≡ n
unfolding write_entry
path_of-write_entry n c e = take-append n (drop (length n) e.path)

-- A used entry that does not match `n` has another path.
pub path_of-ne :
    (n : Text) (x : OverlayFile)
    → IsEntry x
    → x.used ≡ true
    → matches n x ≡ false
    → bytes_eq n (path_of x) ≡ false
path_of-ne n x v u miss = elim (Bool-cases (bytes_eq n (path_of x))) [
  | inl same ↦ absurd (
      let q = matches-path_of x v u in
      let e : n ≡ path_of x = bytes_eq→eq n (path_of x) same in ground (arith, rw (← e) at q))
  | inr other ↦ other
]
