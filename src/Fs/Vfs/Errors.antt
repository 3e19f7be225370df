-- ===== src/Fs/Vfs/Errors.antt =====
-- When `write` and `remove` of kernel/src/fs/vfs.rs fail.
use aetheros_rust_project.Prelude.{
  ◌≤◌, ◌≡◌, refl, ◌↔◌, Bool, false, [], ◌∷◌, none, arith, length, inl, inr, Option-cases, All,
}
use aetheros_rust_project.Prelude.Text.{Text}
use aetheros_rust_project.Fs.Vfs.{
  Overlay, OverlayFile, ok, err, no_space, write_entry, matches, update_first, is_free,
  normalize_path, write, write_normalized, max_content_len,
}

-- Nothing is changed exactly where no entry passes the test.
update_first-none :
    (p : OverlayFile → Bool) (f : OverlayFile → OverlayFile) (files : Overlay)
    → (update_first p f files ≡ none) ↔ All (λ e. p e ≡ false) files
unfolding update_first
update_first-none p f [] = ((λ h. tt), (λ h. refl))
update_first-none p f (x ∷ files) = elim (Option-cases (update_first p f files)) [
  | inl gone ↦ (
    (λ h. (ground (arith, gone), (update_first-none p f files).0 gone)),
    (λ h. ground (arith, gone, h.0)),
  )
  | inr (rest, more) ↦ (
    (λ h. absurd (ground (arith, more))),
    (λ h. absurd (ground (arith, more, (update_first-none p f files).1 h.1))),
  )
]

-- A write of contents that fit fails for want of space exactly if no entry has the path and every
-- entry is used.
pub write-no_space :
    (files : Overlay) (p c : Text) {n : Text}
    → normalize_path p ≡ ok n
    → length c ≤ max_content_len
    → (write files p c ≡ err no_space)
      ↔ (All (λ e. matches n e ≡ false) files × All (λ e. is_free e ≡ false) files)
unfolding write write_normalized
write-no_space files p c {n} norm fits =
    elim (Option-cases (update_first (matches n) (write_entry n c) files)) [
      | inr (rest, over) ↦ (
        (λ h. absurd (ground (arith, norm, over))),
        (λ h.
            absurd (
              ground (arith, over, (update_first-none (matches n) (write_entry n c) files).1 h.0))),
      )
      | inl gone ↦ elim (Option-cases (update_first is_free (write_entry n c) files)) [
        | inr (rest, fill) ↦ (
          (λ h. absurd (ground (arith, norm, gone, fill))),
          (λ h.
              absurd
                (ground (arith, fill, (update_first-none is_free (write_entry n c) files).1 h.1))),
        )
        | inl full ↦ (
          (λ h. (
            (update_first-none (matches n) (write_entry n c) files).0 gone,
            (update_first-none is_free (write_entry n c) files).0 full,
          )),
          (λ h. ground (arith, norm, gone, full)),
        )
      ]
    ]
