-- ===== src/Fs/Vfs/Tests.antt =====
-- The overlay on small files: written, overwritten, read back and removed.
use mathlib.Core.Option
use aetheros_rust_project.Prelude.{
  ◌≡◌, refl, ◌≢◌, ◌↔◌, true, false, ◌∷◌, some, arith, All, replicate, if◌then◌else◌,
}
use aetheros_rust_project.Prelude.Text.{Text, codes}
use aetheros_rust_project.Prelude.Str.{is_str, trim}
use aetheros_rust_project.Fs.Initramfs.{InitramfsFile}
use aetheros_rust_project.Fs.Initramfs
use aetheros_rust_project.Fs.Vfs.{
  Overlay, initial_overlay, empty_file, write_entry, write, remove, read, normalize_path, ok, err,
  no_space, read_only, invalid_path, find, leaked, deref, matches, is_free, write_normalized,
  remove_normalized, read_normalized, exists, for_each_entry,
}
use aetheros_rust_project.Fs.Vfs.Valid.{IsValid, initial_overlay-IsValid}
use aetheros_rust_project.Fs.Vfs.Laws.{
  contents_at, read-write, read-write_ne, read-remove, read-remove_ne, write-IsValid,
}
use aetheros_rust_project.Fs.Vfs.Listing.{HasText, occurrences, for_each_entry-lists}
use aetheros_rust_project.Fs.Vfs.Errors.{write-no_space}
use aetheros_rust_project.Fs.Vfs.Stale.{stale}

abbrev note : Text
note = codes "NOTE"

abbrev slash_note : Text
slash_note = codes "/NOTE"

abbrev hi : Text
hi = codes "hi"

abbrev noted : Overlay
noted = write_entry slash_note hi empty_file ∷ replicate 7 empty_file

abbrev full : Overlay
full = replicate 8 (write_entry (codes "/LOG") hi empty_file)

normalizes : normalize_path note ≡ ok slash_note
unfolding normalize_path trim is_str
normalizes = refl

normalizes_status : normalize_path (codes " STATUS.TXT") ≡ ok (codes "/STATUS.TXT")
unfolding normalize_path trim is_str
normalizes_status = refl

refuses_blank : normalize_path (codes "  ") ≡ err invalid_path
unfolding normalize_path trim is_str
refuses_blank = refl

hi-is_str : is_str hi ≡ true
unfolding is_str
hi-is_str = refl

writes : write initial_overlay note hi ≡ ok noted
unfolding write normalize_path trim is_str write_normalized write_entry
writes = refl

removes : remove noted note ≡ ok initial_overlay
unfolding remove normalize_path trim is_str remove_normalized write_entry
removes = refl

keeps_read_only : remove noted (codes "STATUS.TXT") ≡ err read_only
unfolding remove normalize_path trim is_str remove_normalized write_entry Initramfs.files
keeps_read_only = refl

reads : read noted note ≡ some (leaked 0 2)
unfolding read read_normalized normalize_path trim write_entry is_str matches
reads = refl

noted-IsValid : IsValid noted
noted-IsValid = write-IsValid initial_overlay noted note hi hi-is_str initial_overlay-IsValid writes

read-write_example : contents_at noted note ≡ some hi
read-write_example = read-write initial_overlay noted note hi hi-is_str writes

status_ne : slash_note ≢ codes "/STATUS.TXT"
status_ne = λ h. cc

read-write_ne_example :
    contents_at noted (codes " STATUS.TXT") ≡ contents_at initial_overlay (codes " STATUS.TXT")
read-write_ne_example =
    read-write_ne initial_overlay noted note hi (codes " STATUS.TXT") normalizes normalizes_status
      status_ne writes

read-remove_example :
    contents_at initial_overlay note
    ≡ Option.map (λ (f : InitramfsFile). f.contents) (find slash_note)
read-remove_example = read-remove noted initial_overlay note noted-IsValid normalizes removes

read-remove_ne_example :
    contents_at initial_overlay (codes " STATUS.TXT") ≡ contents_at noted (codes " STATUS.TXT")
read-remove_ne_example =
    read-remove_ne noted initial_overlay note (codes " STATUS.TXT") noted-IsValid normalizes
      normalizes_status status_ne removes

write-IsValid_example : IsValid noted
write-IsValid_example =
    write-IsValid initial_overlay noted note hi hi-is_str initial_overlay-IsValid writes

write-no_space_example :
    (write full note hi ≡ err no_space)
    ↔ (All (λ e. matches slash_note e ≡ false) full × All (λ e. is_free e ≡ false) full)
write-no_space_example = write-no_space full note hi normalizes (omega arith)

stale_example : deref initial_overlay (leaked 0 2) ≡ replicate 2 0
stale_example = stale noted initial_overlay note noted-IsValid reads removes

noted-HasText : All HasText noted
unfolding is_str write_entry
noted-HasText = (
  λ h. refl,
  ((λ h. cc), ((λ h. cc), ((λ h. cc), ((λ h. cc), ((λ h. cc), ((λ h. cc), ((λ h. cc), tt))))))),
)

for_each_entry-lists_example :
    occurrences slash_note (for_each_entry noted) ≡ (if exists noted note then 1 else 0)
for_each_entry-lists_example =
    for_each_entry-lists noted note slash_note noted-IsValid noted-HasText normalizes
