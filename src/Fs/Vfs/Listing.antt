-- ===== src/Fs/Vfs/Listing.antt =====
-- What `for_each_entry` of kernel/src/fs/vfs.rs lists.
use mathlib.Core.Option
use aetheros_rust_project.Prelude.{
  ℕ, suc, ◌+◌, ◌≡◌, refl, sym, ap, ◌∙◌, Bool, true, false, ◌||◌, List, [], ◌∷◌, ◌++◌, Option, none,
  some, arith, bytes_eq, bytes_eq→eq, bytes_eq_refl, if◌then◌else◌, Bool-cases, Option-cases, inl,
  inr, All,
}
use aetheros_rust_project.Prelude.Text.{Text}
use aetheros_rust_project.Prelude.Str.{is_str}
use aetheros_rust_project.Fs.Initramfs.{InitramfsFile}
use aetheros_rust_project.Fs.Initramfs
use aetheros_rust_project.Fs.Vfs.{
  OverlayFile, Overlay, StrRef, deref, ok, is_some, position, matches, entry_path, contents_bytes,
  read_overlay, normalize_path, find, find_in, exists, overlay_paths, uncovered_paths,
  for_each_entry,
}
use aetheros_rust_project.Fs.Vfs.Entries.{matches_used, matches_path}
use aetheros_rust_project.Fs.Vfs.Overlay.{lookup}
use aetheros_rust_project.Fs.Vfs.Valid.{IsEntry, IsUnique, IsValid, path_of, path_of-ne}
use aetheros_rust_project.Fs.Vfs.Laws.{position-lookup, read_overlay-lookup}

-- How often a path is in a list.
abbrev pub occurrences : Text → List Text → ℕ
occurrences n [] = 0
occurrences n (p ∷ ps) = let rest = occurrences n ps in if bytes_eq n p then suc rest else rest

abbrev one_if : Bool → ℕ
one_if b = if b then 1 else 0

abbrev paths : List InitramfsFile → List Text
paths [] = []
paths (f ∷ fs) = f.path ∷ paths fs

-- The path of a used entry is a `str`.
abbrev pub HasText : OverlayFile → Type 0
HasText e = e.used ≡ true → is_str (path_of e) ≡ true

occurrences-append :
    (n : Text) (ps qs : List Text) → occurrences n (ps ++ qs) ≡ occurrences n ps + occurrences n qs
occurrences-append n [] qs = ground arith
occurrences-append n (p ∷ ps) qs = ground (arith, occurrences-append n ps qs)

overlay_paths-used :
    (e : OverlayFile) (files : Overlay)
    → e.used ≡ true
    → is_str (path_of e) ≡ true
    → overlay_paths (e ∷ files) ≡ path_of e ∷ overlay_paths files
unfolding overlay_paths entry_path
overlay_paths-used e files used text = rw (used, text) refl

overlay_paths-free :
    (e : OverlayFile) (files : Overlay)
    → e.used ≡ false
    → overlay_paths (e ∷ files) ≡ overlay_paths files
unfolding overlay_paths
overlay_paths-free e files free = rw free refl

-- The overlay lists the path of each of its entries once.
overlay_occurrences :
    (n : Text) (files : Overlay)
    → All IsEntry files
    → IsUnique files
    → All HasText files
    → occurrences n (overlay_paths files) ≡ one_if (is_some (lookup files n))
unfolding overlay_paths lookup
overlay_occurrences n [] entries unique texts = refl
overlay_occurrences n (e ∷ files) (entry, entries) (fresh, unique) (text, texts) =
    let rest = overlay_occurrences n files entries unique texts in
    elim (Bool-cases e.used) [
      | inr free ↦ rw (overlay_paths-free e files free) (elim (Bool-cases (matches n e)) [
        | inl hit ↦ absurd (let q = matches_used n e hit in cc)
        | inr miss ↦ rw miss rest
      ])
      | inl used ↦
          rw (overlay_paths-used e files used (text used)) (elim (Bool-cases (matches n e)) [
            | inl hit ↦
                let path : path_of e ≡ n = matches_path n e hit in
                let gone : lookup files n ≡ none = rw path at (fresh used) in
                let none_more : occurrences n (overlay_paths files) ≡ 0 = rw gone at rest in
                rw (hit, path, bytes_eq_refl n, none_more) refl
            | inr miss ↦ rw (miss, path_of-ne n e entry used miss) rest
          ])
    ]

position-is_some :
    (n : Text) (files : Overlay) → is_some (position (matches n) files) ≡ is_some (lookup files n)
position-is_some n files = elim (Option-cases (position (matches n) files)) [
  | inl gone ↦ let q = rw gone at (position-lookup files n) in rw (gone, ← q) refl
  | inr (slot, found) ↦ let q = rw found at (position-lookup files n) in rw (found, ← q) refl
]

-- The built-in files that are listed are those without an entry in the overlay.
uncovered_occurrences :
    (n : Text) (files : Overlay) (fs : List InitramfsFile)
    → occurrences n (uncovered_paths files fs)
      ≡ (if is_some (lookup files n) then 0 else occurrences n (paths fs))
unfolding uncovered_paths
uncovered_occurrences n files [] = ground arith
uncovered_occurrences n files (f ∷ fs) =
    let rest = uncovered_occurrences n files fs in
    let same = position-is_some f.path files in
    elim (Bool-cases (bytes_eq n f.path)) [
      | inl this ↦
          let path : n ≡ f.path = bytes_eq→eq n f.path this in
          let same' : is_some (position (matches f.path) files) ≡ is_some (lookup files n) =
            rw path same in
          elim (Bool-cases (is_some (lookup files n))) [
            | inl covered ↦ let q = same' ∙ covered in rw (q, covered) (rw covered at rest)
            | inr plain ↦ let q = same' ∙ plain in rw (q, this, plain) (ap suc (rw plain at rest))
          ]
      | inr other ↦ elim (Bool-cases (is_some (position (matches f.path) files))) [
        | inl covered ↦ rw (covered, other) rest
        | inr plain ↦ rw (plain, other) rest
      ]
    ]

-- No path is before a list of files that has it.
abbrev Distinct : List InitramfsFile → Type 0
Distinct [] = Unit
Distinct (f ∷ fs) = (occurrences f.path (paths fs) ≡ 0) × Distinct fs

find_occurrences :
    (n : Text) (fs : List InitramfsFile)
    → Distinct fs
    → occurrences n (paths fs) ≡ one_if (is_some (find_in fs n))
unfolding find_in
find_occurrences n [] d = refl
find_occurrences n (f ∷ fs) (new, d) = elim (Bool-cases (bytes_eq n f.path)) [
  | inl this ↦
      let path : n ≡ f.path = bytes_eq→eq n f.path this in
      let gone : occurrences n (paths fs) ≡ 0 = rw path new in
      let back : bytes_eq f.path n ≡ true = rw path (bytes_eq_refl f.path) in
      rw (this, back, gone) refl
  | inr other ↦ elim (Bool-cases (bytes_eq f.path n)) [
    | inl this ↦ absurd (
        let path : f.path ≡ n = bytes_eq→eq f.path n this in
        let q = rw (← path, bytes_eq_refl f.path) at other in cc)
    | inr other' ↦ rw (other, other') (find_occurrences n fs d)
  ]
]

builtin_occurrences : (n : Text) → occurrences n (paths Initramfs.files) ≡ one_if (is_some (find n))
unfolding find Initramfs.files
builtin_occurrences n = find_occurrences n Initramfs.files (refl, (refl, (refl, (refl, tt))))

lookup_str :
    (n : Text) (files : Overlay) {c : Text}
    → All IsEntry files
    → lookup files n ≡ some c
    → is_str c ≡ true
unfolding lookup
lookup_str n [] entries found = absurd cc
lookup_str n (e ∷ files) {c} (entry, entries) found = elim (Bool-cases (matches n e)) [
  | inl hit ↦
      let q : some (contents_bytes e) ≡ some c = rw (hit, lookup) at found in
      let same : contents_bytes e ≡ c = cc in rw (← same) entry.contents_str
  | inr miss ↦ lookup_str n files entries (rw (miss, lookup) at found)
]

none_of :
    (files : Overlay) (r : Option StrRef) → Option.map (deref files) r ≡ none → is_some r ≡ false
none_of files none e = refl
none_of files (some r) e = absurd cc

some_of :
    (files : Overlay) {c : Text} (r : Option StrRef)
    → Option.map (deref files) r ≡ some c
    → is_some r ≡ true
some_of files none e = absurd cc
some_of files (some r) e = refl

read_overlay-is_some :
    (n : Text) (files : Overlay)
    → All IsEntry files
    → is_some (read_overlay files n) ≡ is_some (lookup files n)
read_overlay-is_some n files entries =
    let read = read_overlay-lookup files n in
    elim (Option-cases (lookup files n)) [
      | inl gone ↦ none_of files (read_overlay files n) (rw gone at read) ∙ sym (rw gone refl)
      | inr (c, found) ↦
          let text = lookup_str n files entries found in
          some_of files (read_overlay files n) (rw (found, text) at read) ∙ sym (rw found refl)
    ]

-- In a valid overlay whose paths are texts, `for_each_entry` shows its visitor a path exactly once if the path, once it is
-- normalized, exists, and not at all if it does not.
pub for_each_entry-lists :
    (files : Overlay) (p n : Text)
    → IsValid files
    → All HasText files
    → normalize_path p ≡ ok n
    → occurrences n (for_each_entry files) ≡ (if exists files p then 1 else 0)
unfolding for_each_entry exists
for_each_entry-lists files p n v texts normal =
    let overlay = overlay_occurrences n files v.entries v.unique texts in
    let uncovered = uncovered_occurrences n files Initramfs.files in
    let there = read_overlay-is_some n files v.entries in
    let known : exists files p ≡ (is_some (lookup files n) || is_some (find n)) =
      rw (normal, exists, there) refl in
    let parts =
      occurrences-append n (overlay_paths files) (uncovered_paths files Initramfs.files) in
    let builtin = builtin_occurrences n in
    elim (Bool-cases (is_some (lookup files n))) [
      | inl covered ↦
          let a : occurrences n (overlay_paths files) ≡ 1 = overlay ∙ rw covered refl in
          let b : occurrences n (uncovered_paths files Initramfs.files) ≡ 0 =
            uncovered ∙ rw covered refl in
          parts ∙ ground (arith, a, b, known, covered)
      | inr plain ↦
          let a : occurrences n (overlay_paths files) ≡ 0 = overlay ∙ rw plain refl in
          let b : occurrences n (uncovered_paths files Initramfs.files)
              ≡ one_if (is_some (find n)) =
            uncovered ∙ rw plain builtin in
          parts ∙ ground (arith, a, b, known, plain)
    ]
