-- ===== src/Xtask/Stage/Verified.antt =====
-- The Limine bundle that the xtask uses.
use aetheros_rust_project.Prelude.{
  ◌≡◌, subst, sym, ◌⊎◌, inl, inr, true, Bool-cases, bytes_eq, bytes_eq→eq,
}
use aetheros_rust_project.Prelude.Text.{Text, codes}
use aetheros_rust_project.Xtask.{ok, map_err, >>=-ok, map_err-ok}
use aetheros_rust_project.Xtask.Stage.{
  Host, limine_download_sha256, download_archive, extract_verified, cache_dir, archive_path,
  verify_sha256, extract_zip, download_and_extract_limine, ensure_limine_bundle,
}

module _ {S P : Type 0} (host : Host S P) where
  -- What was unpacked into `s'` is an archive with the digest that the xtask expects.
  pub record IsVerified (root : P) (s' : S) : Type 0 where
    pub downloaded : S
    pub bytes : Text
    pub archive : host.read downloaded (archive_path host root) ≡ ok bytes
    pub digest : host.sha256 bytes ≡ limine_download_sha256
    pub unpacked :
        extract_zip host downloaded (archive_path host root) (cache_dir host root) ≡ ok s'

  verify_sha256-ok :
      (s : S) (path : P) (expected : Text)
      → verify_sha256 host s path expected ≡ ok tt
      → (bytes : Text) × (host.read s path ≡ ok bytes) × (host.sha256 bytes ≡ expected)
  unfolding verify_sha256
  verify_sha256-ok s path expected e =
      let (bytes, found, compared) = >>=-ok (map_err _ (host.read s path)) _ e in
      elim (Bool-cases (bytes_eq (host.sha256 bytes) expected)) [
        | inl same ↦ (bytes, map_err-ok _ _ found, bytes_eq→eq _ _ same)
        | inr other ↦ absurd (let q = rw other at compared in cc)
      ]

  download_and_extract_limine-IsVerified :
      (s s' : S) (root : P) → download_and_extract_limine host s root ≡ ok s' → IsVerified root s'
  unfolding download_and_extract_limine extract_verified
  download_and_extract_limine-IsVerified s s' root e =
      let (s₂, got, rest) = >>=-ok (download_archive host s root) (extract_verified host root) e in
      let (u, verified, unpacked) =
        >>=-ok (verify_sha256 host s₂ (archive_path host root) limine_download_sha256)
          (λ v. extract_zip host s₂ (archive_path host root) (cache_dir host root)) rest in
      let (bytes, archive, digest) =
        verify_sha256-ok s₂ (archive_path host root) limine_download_sha256 verified in
      record {
        downloaded = s₂;
        bytes = bytes;
        archive = archive;
        digest = digest;
        unpacked = unpacked;
      }

  -- If the Limine bundle is there in the end, its loader exists, and unless it was there
  -- before, it comes from an archive that was unpacked only after its SHA-256 digest had been found to be the pinned one.
  pub ensure_limine_bundle-IsVerified :
      (s s' : S) (root dir : P)
      → ensure_limine_bundle host s root ≡ ok (dir, s')
      → (host.exists s' (host.join dir (codes "BOOTX64.EFI")) ≡ true)
        × ((s' ≡ s) ⊎ IsVerified root s')
  unfolding ensure_limine_bundle
  ensure_limine_bundle-IsVerified s s' root dir e =
      let bootx64 =
        host.join (host.join (cache_dir host root) (codes "limine-binary")) (codes "BOOTX64.EFI") in
      elim (Bool-cases (host.exists s bootx64)) [
        | inl there ↦
            let q = rw there at e in
            let d : host.join (cache_dir host root) (codes "limine-binary") ≡ dir = cc in
            let t : s ≡ s' = cc in (rw (← d, ← t) there, inl (sym t))
        | inr missing ↦
            let (s₁, made, checked) =
              >>=-ok (download_and_extract_limine host s root) _ (rw missing at e) in
            elim (Bool-cases (host.exists s₁ bootx64)) [
              | inl there ↦
                  let q = rw there at checked in
                  let d : host.join (cache_dir host root) (codes "limine-binary") ≡ dir = cc in
                  let t : s₁ ≡ s' = cc in
                  (
                    rw (← d, ← t) there,
                    inr (
                        subst (IsVerified root) t
                          (download_and_extract_limine-IsVerified s s₁ root made)),
                  )
              | inr gone ↦ absurd (let q = rw gone at checked in cc)
            ]
      ]
