-- ===== src/Memory/FrameAllocator/Initialize.antt =====
-- `initialize` of kernel/src/memory/frame_allocator.rs: which ranges it keeps, and what it counts.
use native.Mathlib.Decide.{dec_lt}
use native.Mathlib.Numerals.{add-one}
use aetheros_rust_project.Prelude.{
  ℕ, ◌+◌, ◌-◌, ◌/◌, ◌%◌, ◌≤◌, ◌<◌, min, ◌≡◌, refl, sym, ap, ◌∙◌, ◌⊎◌, inl, inr, ◌&&◌, List, [], ◌∷◌,
  ◌++◌, Option, none, some, arith, length, set, take, length-set, length-append, take-set,
  take-eq_self, take-append_left, ltb, leb, if◌then◌else◌, append_assoc, append-nil,
}
use aetheros_rust_project.Prelude.Words.{u64_mod, add64, sub64}
use aetheros_rust_project.BootInfo.{MemoryRegion, region_end}
use aetheros_rust_project.Memory.FrameAllocator.Align.{
  frame_size, align_up, align_down, align_down-greatest,
}
use aetheros_rust_project.Memory.FrameAllocator.{
  UsableFrameRange, Scan, initial_scan, is_usable, add_range, scan_region, scan_regions,
  max_usable_ranges,
}

-- The whole frames of a region, if it is usable and has any.
abbrev pub usable_range : MemoryRegion → Option UsableFrameRange
usable_range region =
    if is_usable region.kind
      && ltb (align_up region.base) (align_down (region_end region))
      && leb frame_size region.length
    then some (record { start = align_up region.base; end = align_down (region_end region) })
    else none

abbrev pub cons? : Option UsableFrameRange → List UsableFrameRange → List UsableFrameRange
cons? none rs = rs
cons? (some r) rs = r ∷ rs

-- The usable ranges of a memory map, in order, with no bound on their number.
abbrev pub usable_ranges : List MemoryRegion → List UsableFrameRange
usable_ranges [] = []
usable_ranges (r ∷ rs) = cons? (usable_range r) (usable_ranges rs)

abbrev pub frame_total : List UsableFrameRange → ℕ
frame_total [] = 0
frame_total (r ∷ rs) = (r.end - r.start) / frame_size + frame_total rs

frame_total-append :
    (xs ys : List UsableFrameRange) → frame_total (xs ++ ys) ≡ frame_total xs + frame_total ys
frame_total-append [] ys = omega arith
frame_total-append (x ∷ xs) ys = omega (arith, frame_total-append xs ys)

-- The loop has seen the usable ranges `gs`.
pub record Seen (gs : List UsableFrameRange) (s : Scan) : Type 0 where
  pub size : length s.ranges ≡ max_usable_ranges
  pub count : s.range_count ≡ min max_usable_ranges (length gs)
  pub kept : take s.range_count s.ranges ≡ take max_usable_ranges gs
  pub total : s.total_frames ≡ frame_total gs % u64_mod

initial-Seen : Seen [] initial_scan
initial-Seen = record { size = refl; count = refl; kept = refl; total = refl }

add_range_room :
    (s : Scan) (start end : ℕ)
    → s.range_count < max_usable_ranges
    → add_range s start end ≡ record {
      ranges = set s.ranges s.range_count (record { start = start; end = end });
      range_count = s.range_count + 1;
      total_frames = add64 s.total_frames (sub64 end start / frame_size);
    }
unfolding add_range
add_range_room s start end h = ground arith

add_range_full :
    (s : Scan) (start end : ℕ)
    → max_usable_ranges ≤ s.range_count
    → add_range s start end
      ≡ record s { total_frames = add64 s.total_frames (sub64 end start / frame_size) }
unfolding add_range
add_range_full s start end h = ground arith

module _ (gs : List UsableFrameRange) (s : Scan) (g : UsableFrameRange) (h : Seen gs s)
    (lt : g.start < g.end) (fits : g.end < u64_mod) where
  length_more : length (gs ++ (g ∷ [])) ≡ length gs + 1
  length_more = omega (arith, length-append gs (g ∷ []))

  total_more :
      add64 s.total_frames (sub64 g.end g.start / frame_size)
      ≡ frame_total (gs ++ (g ∷ [])) % u64_mod
  total_more =
      let difference : sub64 g.end g.start ≡ g.end - g.start = omega arith in
      rw (difference, h.total, frame_total-append gs (g ∷ [])) (omega arith)

  add_range-Seen_room :
      length gs < max_usable_ranges → Seen (gs ++ (g ∷ [])) (add_range s g.start g.end)
  add_range-Seen_room room =
      let filled : s.range_count ≡ length gs = omega (arith, h.count) in
      rw (add_range_room s g.start g.end (omega arith)) (record {
        size = length-set s.ranges s.range_count g ∙ h.size;
        count = omega (arith, length_more);
        kept = rw add-one (
            take-set s.range_count s.ranges g (omega (arith, h.size))
            ∙ ap (λ l. l ++ (g ∷ [])) (h.kept ∙ take-eq_self max_usable_ranges gs (omega arith))
            ∙ sym (take-eq_self max_usable_ranges (gs ++ (g ∷ [])) (omega (arith, length_more))));
        total = total_more;
      })

  add_range-Seen_full :
      max_usable_ranges ≤ length gs → Seen (gs ++ (g ∷ [])) (add_range s g.start g.end)
  add_range-Seen_full full = rw (add_range_full s g.start g.end (omega (arith, h.count))) (record {
    size = h.size;
    count = omega (arith, length_more, h.count);
    kept = h.kept ∙ sym (take-append_left max_usable_ranges gs (g ∷ []) full);
    total = total_more;
  })

  add_range-Seen : Seen (gs ++ (g ∷ [])) (add_range s g.start g.end)
  add_range-Seen = elim (dec_lt (length gs) max_usable_ranges) [
    | yes room ↦ add_range-Seen_room room
    | no full ↦ add_range-Seen_full (omega arith)
  ]

-- A region that does not reach past the end of the address space.
abbrev pub IsMapped : MemoryRegion → Type 0
IsMapped r = r.base + r.length < u64_mod

-- A round of the loop skips a region with no whole usable frame, and adds the others.
scan_region_lem :
    (s : Scan) (r : MemoryRegion)
    → ((scan_region s r ≡ s) × (usable_range r ≡ none))
      ⊎ ((scan_region s r ≡ add_range s (align_up r.base) (align_down (region_end r)))
          × (usable_range r
              ≡ some (record { start = align_up r.base; end = align_down (region_end r) }))
          × (align_up r.base < align_down (region_end r)))
unfolding scan_region
scan_region_lem s r = ground arith

region_end-lt : (r : MemoryRegion) → region_end r < u64_mod
unfolding region_end
region_end-lt r = omega arith

scan_region-Seen :
    (gs : List UsableFrameRange) (s : Scan) (r : MemoryRegion)
    → Seen gs s
    → Seen (gs ++ cons? (usable_range r) []) (scan_region s r)
scan_region-Seen gs s r h = elim (scan_region_lem s r) [
  | inl (same, skip) ↦ rw (same, skip, append-nil) h
  | inr (more, found, lt) ↦
      rw (more, found)
        (add_range-Seen gs s (record { start = align_up r.base; end = align_down (region_end r) }) h
          lt (omega (arith, align_down-greatest (region_end r), region_end-lt r)))
]

append-cons? :
    (gs rest : List UsableFrameRange) (o : Option UsableFrameRange)
    → (gs ++ cons? o []) ++ rest ≡ gs ++ cons? o rest
append-cons? gs rest none = rw append-nil
append-cons? gs rest (some r) = append_assoc gs (r ∷ []) rest

scan_regions-Seen_from :
    (gs : List UsableFrameRange) (s : Scan) (rs : List MemoryRegion)
    → Seen gs s
    → Seen (gs ++ usable_ranges rs) (scan_regions s rs)
unfolding scan_regions
scan_regions-Seen_from gs s [] h = rw append-nil h
scan_regions-Seen_from gs s (r ∷ rs) h =
    rw (append-cons? gs (usable_ranges rs) (usable_range r)) at (
      scan_regions-Seen_from (gs ++ cons? (usable_range r) []) (scan_region s r) rs
        (scan_region-Seen gs s r h))

-- The loop keeps the first 32 usable ranges, and counts the frames of all of them.
pub scan_regions-Seen :
    (rs : List MemoryRegion) → Seen (usable_ranges rs) (scan_regions initial_scan rs)
scan_regions-Seen rs = scan_regions-Seen_from [] initial_scan rs initial-Seen
