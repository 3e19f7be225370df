-- ===== src/Memory/FrameAllocator/Safety.antt =====
-- The allocator that `initialize` of kernel/src/memory/frame_allocator.rs sets up is valid, and
-- its frames lie in usable memory.
use aetheros_rust_project.Prelude.{
  ℕ, zero, suc, ◌+◌, ◌-◌, ◌*◌, ◌/◌, ◌≤◌, ◌≡◌, refl, ap, ◌∙◌, ◌⊎◌, inl, inr, List, [], ◌∷◌, ◌++◌,
  none, some, arith, take, All, All-take, All-append, All-split, subst, All-map, Option-cases,
  length,
}
use aetheros_rust_project.BootInfo.{BootInfo, MemoryRegion, region_end, usable}
use aetheros_rust_project.Memory.FrameAllocator.Align.{
  frame_size, align_up-least, align_down-greatest,
}
use aetheros_rust_project.Memory.FrameAllocator.Frames.{
  IsRange, IsValid, remaining, frames, all_frames,
}
use aetheros_rust_project.Memory.FrameAllocator.Initialize.{
  usable_range, usable_ranges, IsMapped, scan_regions-Seen,
}
use aetheros_rust_project.Memory.FrameAllocator.{
  UsableFrameRange, FrameAllocator, Statics, initial_scan, scan_regions, mapped_regions, new,
  initialize, max_usable_ranges,
}

-- What is known of a region that contributes the range `g`.
pub record Contributes (r : MemoryRegion) (g : UsableFrameRange) : Type 0 where
  pub range : IsRange g
  pub kind : r.kind ≡ usable
  pub above : r.base ≤ g.start
  pub below : g.end ≤ r.base + r.length

pub usable_range-Contributes :
    (r : MemoryRegion) {g : UsableFrameRange}
    → IsMapped r
    → usable_range r ≡ some g
    → Contributes r g
unfolding region_end
usable_range-Contributes r m e =
    ground (arith, align_up-least r.base, align_down-greatest (region_end r))

pub usable_ranges-IsRange :
    (rs : List MemoryRegion) → All IsMapped rs → All IsRange (usable_ranges rs)
usable_ranges-IsRange [] m = tt
usable_ranges-IsRange (r ∷ rs) m = elim (Option-cases (usable_range r)) [
  | inl skip ↦ rw skip (usable_ranges-IsRange rs m.1)
  | inr (g, e) ↦ rw e ((usable_range-Contributes r m.0 e).range, usable_ranges-IsRange rs m.1)
]

-- The first range starts at the current frame of a new allocator.
new_start :
    (r : UsableFrameRange) (ranges : List UsableFrameRange) (n : ℕ)
    → (new (r ∷ ranges) (suc n)).current_frame ≡ r.start
unfolding new
new_start r ranges n = ground arith

-- A new allocator over an array of ranges starts with all of their frames.
new-IsValid :
    (ranges : List UsableFrameRange) (n : ℕ)
    → n ≤ length ranges
    → All IsRange (take n ranges)
    → IsValid (new ranges n) × (remaining (new ranges n) ≡ all_frames (take n ranges))
unfolding new
new-IsValid [] zero h ok = (record { counted = h; ranges = ok; position = tt }, refl)
new-IsValid [] (suc n) h ok = absurd (omega arith)
new-IsValid (r ∷ ranges) zero h ok = (record { counted = h; ranges = ok; position = tt }, refl)
new-IsValid (r ∷ ranges) (suc n) h ok = (
  record {
    counted = h;
    ranges = ok;
    position = omega (arith, new_start r ranges n, ok.0.nonempty, ok.0.start_aligned);
  },
  ap (λ c. frames c ((r.end - c) / frame_size) ++ all_frames (take n ranges))
      (new_start r ranges n),
)

-- After the first `initialize`, over a map whose entries end below the end of the address
-- space, the allocator is valid, and the frames that it
-- has to hand out are those of the first 32 usable ranges, in order.
pub initialize-IsValid :
    (b : BootInfo) (st : Statics)
    → All IsMapped (mapped_regions b)
    → st.allocator ≡ none
    → (a : FrameAllocator) × ((initialize b st).allocator ≡ some a)
      × IsValid a
      × (remaining a ≡ all_frames (take max_usable_ranges (usable_ranges (mapped_regions b))))
unfolding initialize
initialize-IsValid b st m fresh =
    let seen = scan_regions-Seen (mapped_regions b) in
    let s = scan_regions initial_scan (mapped_regions b) in
    let ok =
      All-take IsRange max_usable_ranges (usable_ranges (mapped_regions b))
        (usable_ranges-IsRange (mapped_regions b) m) in
    let (v, e) =
      new-IsValid s.ranges s.range_count (omega (arith, seen.size, seen.count)) (rw seen.kept ok) in
    (new s.ranges s.range_count, rw fresh, v, e ∙ ap all_frames seen.kept)

-- The whole frame at `f` lies in a usable region of the map.
abbrev pub InUsable : List MemoryRegion → ℕ → Type 0
InUsable [] f = ⊥
InUsable (r ∷ rs) f =
    ((r.kind ≡ usable) × (r.base ≤ f) × (f + frame_size ≤ r.base + r.length)) ⊎ InUsable rs f

-- The frames of a stretch lie in it.
pub frames-within :
    (s n lo hi : ℕ)
    → lo ≤ s
    → s + n * frame_size ≤ hi
    → All (λ f. (lo ≤ f) × (f + frame_size ≤ hi)) (frames s n)
frames-within s zero lo hi l h = tt
frames-within s (suc n) lo hi l h =
    (omega arith, frames-within (s + frame_size) n lo hi (omega arith) (omega arith))

-- Each frame of the usable ranges lies whole in a usable region.
frames-InUsable :
    (rs : List MemoryRegion) → All IsMapped rs → All (InUsable rs) (all_frames (usable_ranges rs))
frames-InUsable [] m = tt
frames-InUsable (r ∷ rs) m = elim (Option-cases (usable_range r)) [
  | inl skip ↦ rw skip (All-map (λ f h. inr h) _ (frames-InUsable rs m.1))
  | inr (g, e) ↦
      let c = usable_range-Contributes r m.0 e in
      rw e (
        All-append (InUsable (r ∷ rs)) (frames g.start ((g.end - g.start) / frame_size)) _
          (All-map (λ f h. inl (c.kind, h.0, h.1)) _
            (frames-within g.start ((g.end - g.start) / frame_size) r.base (r.base + r.length)
              c.above (omega (arith, c.below, c.range.nonempty))))
          (All-map (λ f h. inr h) _ (frames-InUsable rs m.1)))
]

all_frames-take :
    (P : ℕ → Type 0) (n : ℕ) (gs : List UsableFrameRange)
    → All P (all_frames gs)
    → All P (all_frames (take n gs))
all_frames-take P zero gs h = tt
all_frames-take P (suc n) [] h = tt
all_frames-take P (suc n) (g ∷ gs) h =
    let parts = All-split P (frames g.start ((g.end - g.start) / frame_size)) (all_frames gs) h in
    All-append P (frames g.start ((g.end - g.start) / frame_size)) (all_frames (take n gs)) parts.0
      (all_frames-take P n gs parts.1)

-- Each frame that the first `initialize`, over a map whose entries end below the end of the
-- address space, lets the allocator hand out lies whole in a usable region of the map.
pub initialize-InUsable :
    (b : BootInfo) (st : Statics) {a : FrameAllocator}
    → All IsMapped (mapped_regions b)
    → st.allocator ≡ none
    → (initialize b st).allocator ≡ some a
    → All (InUsable (mapped_regions b)) (remaining a)
initialize-InUsable b st {a} m fresh e =
    let (a', e', v, r) = initialize-IsValid b st m fresh in
    let same : a' ≡ a = cc in
    subst (λ x. All (InUsable (mapped_regions b)) (remaining x)) same
      (rw r (
        all_frames-take (InUsable (mapped_regions b)) max_usable_ranges
          (usable_ranges (mapped_regions b)) (frames-InUsable (mapped_regions b) m)))
