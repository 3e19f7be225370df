-- ===== src/Arch/Boot/Collect.antt =====
-- What `collect_boot_info` of kernel/src/arch/x86_64/boot.rs makes of the memory map, up to the frames
-- that the frame allocator takes from it.
use aetheros_rust_project.Prelude.{
  ℕ, zero, suc, ◌+◌, ◌≤◌, ◌<◌, ◌≡◌, refl, ◌∙◌, sym, ap, ◌⊎◌, inl, inr, List, [], ◌∷◌, ◌++◌, map,
  Option, none, some, arith, length, set, take, min, take-set, append_assoc, append-nil, length-set,
  length-take, All, All-map, All-take,
}
use aetheros_rust_project.Prelude.Words.{u64_mod}
use aetheros_rust_project.BootInfo.{
  MemoryRegion, usable, max_memory_regions, no_regions, new_region,
}
use aetheros_rust_project.Memory.FrameAllocator.Align.{frame_size}
use aetheros_rust_project.Memory.FrameAllocator.{
  FrameAllocator, Statics, mapped_regions, initialize,
}
use aetheros_rust_project.Memory.FrameAllocator.Frames.{remaining}
use aetheros_rust_project.Memory.FrameAllocator.Initialize.{IsMapped}
use aetheros_rust_project.Memory.FrameAllocator.Safety.{InUsable, initialize-InUsable}
use aetheros_rust_project.Arch.Boot.{
  MapEntry, Framebuffer, classify_memory_region, normalize_regions, boot_info_of,
}

-- The region of an entry.
abbrev pub region_of : MapEntry → MemoryRegion
region_of e = new_region e.base e.length (classify_memory_region e.type_)

length-normalize_regions :
    (i : ℕ) (es : List MapEntry) (rs : List MemoryRegion)
    → length (normalize_regions i es rs) ≡ length rs
unfolding normalize_regions
length-normalize_regions i [] rs = refl
length-normalize_regions i (e ∷ es) rs =
    length-normalize_regions (suc i) es (set rs i (region_of e)) ∙ length-set rs i (region_of e)

-- The regions before `i` stay, and those of the entries follow.
take-normalize_regions :
    (i n : ℕ) (es : List MapEntry) (rs : List MemoryRegion)
    → n ≡ i + length es
    → n ≤ length rs
    → take n (normalize_regions i es rs) ≡ take i rs ++ map region_of es
unfolding normalize_regions
take-normalize_regions i n [] rs e h =
    ap (λ k. take k rs) (omega arith) ∙ sym (append-nil (take i rs))
take-normalize_regions i n (x ∷ es) rs e h =
    take-normalize_regions (suc i) n es (set rs i (region_of x)) (omega arith)
      (omega (arith, length-set rs i (region_of x)))
    ∙ ap (λ t. t ++ map region_of es) (take-set i rs (region_of x) (omega arith))
    ∙ append_assoc (take i rs) (region_of x ∷ []) (map region_of es)

-- The boot information has 64 regions, and those that the kernel looks at are the first 64 entries of
-- the memory map, classified, in order.
pub mapped_regions-boot_info_of :
    (hhdm_offset : ℕ) (entries : List MapEntry) (framebuffers : Option (List Framebuffer))
    → let b = boot_info_of hhdm_offset entries framebuffers in
      (length b.memory_regions ≡ max_memory_regions)
      × (mapped_regions b ≡ map region_of (take max_memory_regions entries))
unfolding boot_info_of mapped_regions
mapped_regions-boot_info_of hhdm_offset entries framebuffers =
    let es = take max_memory_regions entries in
    let size : length (normalize_regions 0 es no_regions) ≡ 64 =
      length-normalize_regions 0 es no_regions in
    let count : min (length entries) (length (normalize_regions 0 es no_regions)) ≡ 0 + length es =
      omega (arith, size, length-take 64 entries) in
    (size, take-normalize_regions 0 _ es no_regions count (omega (arith, size)))

-- The whole frame at `f` lies in an entry that the bootloader calls usable.
abbrev pub InUsableEntry : List MapEntry → ℕ → Type 0
InUsableEntry [] f = ⊥
InUsableEntry (e ∷ es) f =
    ((e.type_ ≡ 0) × (e.base ≤ f) × (f + frame_size ≤ e.base + e.length)) ⊎ InUsableEntry es f

classify-usable : (t : ℕ) → classify_memory_region t ≡ usable → t ≡ 0
unfolding classify_memory_region
classify-usable t e = ground arith

usable_entry :
    (n : ℕ) (es : List MapEntry) (f : ℕ)
    → InUsable (map region_of (take n es)) f
    → InUsableEntry es f
usable_entry zero es f h = elim h [ ]
usable_entry (suc n) [] f h = elim h [ ]
usable_entry (suc n) (e ∷ es) f (inl (kind, lo, hi)) = inl (classify-usable e.type_ kind, lo, hi)
usable_entry (suc n) (e ∷ es) f (inr rest) = inr (usable_entry n es f rest)

-- The entry ends below the end of the address space.
abbrev pub IsEntry : MapEntry → Type 0
IsEntry e = e.base + e.length < u64_mod

All-IsMapped : (es : List MapEntry) → All IsEntry es → All IsMapped (map region_of es)
All-IsMapped [] h = tt
All-IsMapped (e ∷ es) h = (h.0, All-IsMapped es h.1)

-- From the bootloader's memory map to the frames: whatever the frame allocator has to hand out after
-- its first `initialize` lies whole in an entry of type 0, if the entries end below the end of the
-- address space.
pub boot-InUsableEntry :
    (hhdm_offset : ℕ) (entries : List MapEntry) (framebuffers : Option (List Framebuffer))
    (st : Statics) {a : FrameAllocator}
    → All IsEntry entries
    → st.allocator ≡ none
    → (initialize (boot_info_of hhdm_offset entries framebuffers) st).allocator ≡ some a
    → All (InUsableEntry entries) (remaining a)
boot-InUsableEntry hhdm_offset entries framebuffers st {a} ok fresh e =
    let b = boot_info_of hhdm_offset entries framebuffers in
    let regions = (mapped_regions-boot_info_of hhdm_offset entries framebuffers).1 in
    let mapped : All IsMapped (mapped_regions b) = rw regions (
      All-IsMapped (take max_memory_regions entries)
        (All-take IsEntry max_memory_regions entries ok)) in
    let frames = initialize-InUsable b st mapped fresh e in
    All-map (λ f h. usable_entry max_memory_regions entries f (rw regions at h)) (remaining a)
      frames
