-- ===== src/Memory/FrameAllocator/Counts.antt =====
-- The counters of kernel/src/memory/frame_allocator.rs against what the allocator can hand out.
use aetheros_rust_project.Prelude.{
  ℕ, zero, suc, ◌+◌, ◌-◌, ◌*◌, ◌/◌, ◌^◌, ◌≤◌, ◌<◌, min, ◌≡◌, refl, ap, sym, ◌∙◌, inl, inr, List, [],
  ◌∷◌, none, some, arith, length, length-append, length-take, take, drop, All, Option-cases,
  take-eq_self,
}
use aetheros_rust_project.BootInfo.{BootInfo, MemoryRegion, max_memory_regions}
use aetheros_rust_project.Memory.FrameAllocator.Align.{frame_size}
use aetheros_rust_project.Memory.FrameAllocator.Frames.{IsRange, remaining, frames, all_frames}
use aetheros_rust_project.Memory.FrameAllocator.Initialize.{
  usable_range, usable_ranges, IsMapped, frame_total, scan_regions-Seen,
}
use aetheros_rust_project.Memory.FrameAllocator.Safety.{initialize-IsValid, usable_ranges-IsRange}
use aetheros_rust_project.Memory.FrameAllocator.{
  UsableFrameRange, FrameAllocator, Statics, mapped_regions, initialize, max_usable_ranges,
}

length-frames : (s n : ℕ) → length (frames s n) ≡ n
length-frames s zero = refl
length-frames s (suc n) = ap suc (length-frames (s + frame_size) n)

length-all_frames : (gs : List UsableFrameRange) → length (all_frames gs) ≡ frame_total gs
length-all_frames [] = refl
length-all_frames (g ∷ gs) =
    let n = (g.end - g.start) / frame_size in
    omega (
      arith,
      length-append (frames g.start n) (all_frames gs),
      length-frames g.start n,
      length-all_frames gs,
    )

length-usable_ranges : (rs : List MemoryRegion) → length (usable_ranges rs) ≤ length rs
length-usable_ranges [] = omega arith
length-usable_ranges (r ∷ rs) = elim (Option-cases (usable_range r)) [
  | inl skip ↦ rw skip (omega (arith, length-usable_ranges rs))
  | inr (g, e) ↦ rw e (omega (arith, length-usable_ranges rs))
]

-- A range of a 64-bit address space has at most 2 ^ 52 frames.
frame_total-le : (gs : List UsableFrameRange) → All IsRange gs → frame_total gs ≤ length gs * 2 ^ 52
frame_total-le [] ok = omega arith
frame_total-le (g ∷ gs) ok = omega (arith, frame_total-le gs ok.1, ok.0.fits)

frame_total-split :
    (n : ℕ) (gs : List UsableFrameRange)
    → frame_total gs ≡ frame_total (take n gs) + frame_total (drop n gs)
frame_total-split zero gs = omega arith
frame_total-split (suc n) [] = omega arith
frame_total-split (suc n) (g ∷ gs) = omega (arith, frame_total-split n gs)

frame_total-drop_pos :
    (n : ℕ) (gs : List UsableFrameRange)
    → All IsRange gs
    → n < length gs
    → 0 < frame_total (drop n gs)
frame_total-drop_pos n [] ok h = absurd (omega arith)
frame_total-drop_pos zero (g ∷ gs) ok h =
    omega (arith, ok.0.nonempty, ok.0.start_aligned, ok.0.end_aligned)
frame_total-drop_pos (suc n) (g ∷ gs) ok h = frame_total-drop_pos n gs ok.1 (omega arith)

-- The published counter is the frames to hand out and those of the ranges past the 32nd.
count_lem :
    (b : BootInfo) (st : Statics) {a : FrameAllocator}
    → length b.memory_regions ≡ max_memory_regions
    → All IsMapped (mapped_regions b)
    → st.allocator ≡ none
    → (initialize b st).allocator ≡ some a
    → (initialize b st).usable_frame_count
      ≡ length (remaining a)
        + frame_total (drop max_usable_ranges (usable_ranges (mapped_regions b)))
unfolding initialize mapped_regions
count_lem b st {a} size m fresh e =
    let rs = mapped_regions b in
    let gs = usable_ranges rs in
    let (a', e', v, r) = initialize-IsValid b st m fresh in
    let same : a' ≡ a = cc in
    let left : length (remaining a) ≡ frame_total (take max_usable_ranges gs) =
      ap (λ x. length (remaining x)) (sym same)
      ∙ ap length r
      ∙ length-all_frames (take max_usable_ranges gs) in
    let bound : length rs ≤ max_memory_regions =
      omega (
        arith,
        length-take (min b.memory_map_entries (length b.memory_regions)) b.memory_regions,
      ) in
    omega (
      arith,
      (scan_regions-Seen rs).total,
      frame_total-split max_usable_ranges gs,
      frame_total-le gs (usable_ranges-IsRange rs m),
      length-usable_ranges rs,
    )

module _ (b : BootInfo) (st : Statics) {a : FrameAllocator}
    (size : length b.memory_regions ≡ max_memory_regions) (m : All IsMapped (mapped_regions b))
    (fresh : st.allocator ≡ none) (e : (initialize b st).allocator ≡ some a) where
  -- After the first `initialize`, over a map of 64 regions whose entries end below the end of
  -- the address space, with at most 32 usable ranges: the published counter is the number of frames to hand out.
  pub count_exact :
      length (usable_ranges (mapped_regions b)) ≤ max_usable_ranges
      → (initialize b st).usable_frame_count ≡ length (remaining a)
  count_exact few =
      let gs = usable_ranges (mapped_regions b) in
      omega (
        arith,
        count_lem b st size m fresh e,
        frame_total-split max_usable_ranges gs,
        ap frame_total (take-eq_self max_usable_ranges gs few),
      )

  -- After the first `initialize`, over a map of 64 regions whose entries end below the end of
  -- the address space, with more than 32 usable ranges: the published counter is greater than the number of frames
  -- that the allocator will ever hand out: the ranges past the 32nd are counted and dropped.
  pub count_overstates :
      max_usable_ranges < length (usable_ranges (mapped_regions b))
      → length (remaining a) < (initialize b st).usable_frame_count
  count_overstates many =
      let gs = usable_ranges (mapped_regions b) in
      omega (
        arith,
        count_lem b st size m fresh e,
        frame_total-drop_pos max_usable_ranges gs (usable_ranges-IsRange (mapped_regions b) m) many,
      )
