-- ===== src/Xtask/Stage/Staged.antt =====
-- What the xtask's boot tree has when it is staged.
use aetheros_rust_project.Prelude.{ℕ, ◌≡◌, ◌<◌, refl, ◌⊎◌, true, Option, none, some, arith}
use aetheros_rust_project.Prelude.Text.{Text, codes}
use aetheros_rust_project.Xtask.{ok, ◌>>=◌, >>=-ok, map_err-ok}
use aetheros_rust_project.Xtask.Stage.{Host, ensure_limine_bundle}
use aetheros_rust_project.Xtask.Stage.Tree.{
  build_kernel, locate_kernel_binary, locate_limine_config, stage_dir, efi_boot_dir, copy_kernel,
  copy_config, copy_efi_config, copy_loader, copy_tree, make_directories, fill_tree, stage_from,
  stage_built, stage_boot_tree,
}
use aetheros_rust_project.Xtask.Stage.Qemu.{
  positive_or, parsed, qemu_monitor_port, boot_timeout_secs,
}
use aetheros_rust_project.Xtask.Stage.Verified.{IsVerified, ensure_limine_bundle-IsVerified}

positive_or-pos : (default : ℕ) (o : Option ℕ) → 0 < default → 0 < positive_or default o
positive_or-pos default none h = h
positive_or-pos default (some value) h = ground arith

positive_or-lt :
    (default : ℕ) (o : Option ℕ) (bound : ℕ)
    → default < bound
    → ((n : ℕ) → o ≡ some n → n < bound)
    → positive_or default o < bound
positive_or-lt default none bound h small = h
positive_or-lt default (some value) bound h small = ground (arith, small value refl)

parsed-lt :
    (parse : Text → Option ℕ) (o : Option Text) {bound : ℕ}
    → ((t : Text) (n : ℕ) → parse t ≡ some n → n < bound)
    → (n : ℕ) → parsed parse o ≡ some n
    → n < bound
parsed-lt parse none small n e = absurd cc
parsed-lt parse (some value) small n e = small value n e

-- The four files of the boot tree.
pub record IsStaged {S P : Type 0} (host : Host S P) (root : P) (s : S) : Type 0 where
  pub kernel : host.exists s (host.join (stage_dir host root) (codes "kernel.elf")) ≡ true
  pub config : host.exists s (host.join (stage_dir host root) (codes "limine.conf")) ≡ true
  pub efi_config : host.exists s (host.join (efi_boot_dir host root) (codes "limine.conf")) ≡ true
  pub loader : host.exists s (host.join (efi_boot_dir host root) (codes "BOOTX64.EFI")) ≡ true

module _ {S P : Type 0} (host : Host S P) where
  -- What a copy does: its destination exists then, and what existed before exists still.
  abbrev pub Copies : Type 0
  Copies =
      (s s' : S) (source dest : P)
      → host.copy s source dest ≡ ok s'
      → (host.exists s' dest ≡ true) × ((p : P) → host.exists s p ≡ true → host.exists s' p ≡ true)

  copy_tree-IsStaged :
      (root kernel_source limine_cfg_src limine_dir : P) (s s' : S)
      → Copies
      → copy_tree host root kernel_source limine_cfg_src limine_dir s ≡ ok s'
      → IsStaged host root s'
  unfolding copy_tree
  copy_tree-IsStaged root kernel_source limine_cfg_src limine_dir s s' copies e =
      let a = copy_kernel host root kernel_source s in
      let b = copy_config host root limine_cfg_src in
      let c = copy_efi_config host root limine_cfg_src in
      let d = copy_loader host root limine_dir in
      let (s₃, e₃, last) = >>=-ok (a >>= b >>= c) d e in
      let (s₂, e₂, third) = >>=-ok (a >>= b) c e₃ in
      let (s₁, first, second) = >>=-ok a b e₂ in
      let k₁ = copies s s₁ _ _ (map_err-ok _ _ first) in
      let k₂ = copies s₁ s₂ _ _ (map_err-ok _ _ second) in
      let k₃ = copies s₂ s₃ _ _ (map_err-ok _ _ third) in
      let k₄ = copies s₃ s' _ _ (map_err-ok _ _ last) in
      record {
        kernel = k₄.1 _ (k₃.1 _ (k₂.1 _ k₁.0));
        config = k₄.1 _ (k₃.1 _ k₂.0);
        efi_config = k₄.1 _ k₃.0;
        loader = k₄.0;
      }

  -- Where the loader in the tree comes from: the bundle was there after the build, its loader included, or it
  -- was unpacked from a verified archive into the state that the tree is made from; the loader that
  -- is copied last is the bundle's.
  pub record HasBundle (root : P) (s s' : S) : Type 0 where
    pub built : S
    pub building : build_kernel host s root ≡ ok built
    pub limine_dir : P
    pub bundle : S
    pub bundling : ensure_limine_bundle host built root ≡ ok (limine_dir, bundle)
    pub there : host.exists bundle (host.join limine_dir (codes "BOOTX64.EFI")) ≡ true
    pub origin : (bundle ≡ built) ⊎ IsVerified host root bundle
    pub kernel_source : P
    pub limine_cfg_src : P
    pub made : S
    pub making : make_directories host root bundle ≡ ok made
    pub copied : S
    pub copying :
        (copy_kernel host root kernel_source made
          >>= copy_config host root limine_cfg_src
          >>= copy_efi_config host root limine_cfg_src)
        ≡ ok copied
    pub loading :
        host.copy copied
          (host.join limine_dir (codes "BOOTX64.EFI"))
          (host.join (efi_boot_dir host root) (codes "BOOTX64.EFI"))
        ≡ ok s'

  -- If the boot tree is staged without error, its four files exist, if copies make their destination and
  -- keep what exists. The loader is copied last, from the bundle, which was there with its loader after the build or was
  -- unpacked from an archive after its digest had been found to be the pinned one; the directories and the other copies are
  -- made from the state that this leaves.
  pub stage_boot_tree-IsStaged :
      (s s' : S) (root : P)
      → Copies
      → stage_boot_tree host s root ≡ ok s'
      → IsStaged host root s' × HasBundle root s s'
  unfolding stage_boot_tree stage_built stage_from fill_tree copy_tree
  stage_boot_tree-IsStaged s s' root copies e =
      let (s₁, built, e₁) = >>=-ok (build_kernel host s root) (stage_built host root) e in
      let (limine, bundled, e₂) =
        >>=-ok (ensure_limine_bundle host s₁ root) (stage_from host root) e₁ in
      let (kernel, found, e₃) =
        >>=-ok (locate_kernel_binary host limine.1 root)
          (λ k. locate_limine_config host limine.1 root >>= λ c.
            fill_tree host root limine.0 k c limine.1)
          e₂ in
      let (config, configured, e₄) =
        >>=-ok (locate_limine_config host limine.1 root)
          (λ c. fill_tree host root limine.0 kernel c limine.1) e₃ in
      let (s₂, made, filled) =
        >>=-ok (make_directories host root limine.1) (copy_tree host root kernel config limine.0)
          e₄ in
      let (s₃, copied, last) =
        >>=-ok
          (copy_kernel host root kernel s₂
            >>= copy_config host root config
            >>= copy_efi_config host root config)
          (copy_loader host root limine.0) filled in
      let verified = ensure_limine_bundle-IsVerified host s₁ limine.1 root limine.0 bundled in
      (
        copy_tree-IsStaged root kernel config limine.0 s₂ s' copies filled,
        record {
          built = s₁;
          building = built;
          limine_dir = limine.0;
          bundle = limine.1;
          bundling = bundled;
          there = verified.0;
          origin = verified.1;
          kernel_source = kernel;
          limine_cfg_src = config;
          made = s₂;
          making = made;
          copied = s₃;
          copying = copied;
          loading = map_err-ok _ _ last;
        },
      )

  -- Whatever the environment has, the monitor's port fits 16 bits and neither it nor the timeout is 0,
  -- if no number that is parsed as a `u16` is larger.
  pub settings_positive :
      (parse_u16 parse_u64 : Text → Option ℕ)
      → ((t : Text) (n : ℕ) → parse_u16 t ≡ some n → n < 65536)
      → (0 < qemu_monitor_port host parse_u16)
        × (qemu_monitor_port host parse_u16 < 65536)
        × (0 < boot_timeout_secs host parse_u64)
  unfolding qemu_monitor_port boot_timeout_secs
  settings_positive parse_u16 parse_u64 small =
      let port = parsed parse_u16 (host.var (codes "AETHER_QEMU_MONITOR_PORT")) in
      let timeout = parsed parse_u64 (host.var (codes "AETHER_BOOT_TIMEOUT_SECS")) in
      (
        positive_or-pos 45454 port (omega arith),
        positive_or-lt 45454 port 65536 (omega arith)
            (parsed-lt parse_u16 (host.var (codes "AETHER_QEMU_MONITOR_PORT")) small),
        positive_or-pos 20 timeout (omega arith),
      )
