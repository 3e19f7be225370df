-- ===== src/Memory/FrameAllocator/Tests.antt =====
-- The frame allocator on small memory maps.
use aetheros_rust_project.Prelude.{
  ℕ, zero, suc, ◌+◌, ◌≤◌, ◌<◌, ◌≡◌, refl, List, [], ◌∷◌, ◌++◌, none, some, arith, length, replicate,
  take, All,
}
use aetheros_rust_project.BootInfo.{
  BootInfo, MemoryRegion, usable, reserved, empty_region, region_end,
}
use aetheros_rust_project.Memory.FrameAllocator.Align.{frame_size, align_up, align_down}
use aetheros_rust_project.Memory.FrameAllocator.Frames.{IsValid, remaining, all_frames}
use aetheros_rust_project.Memory.FrameAllocator.Refine.{Refines, allocate_frame-Refines}
use aetheros_rust_project.Memory.FrameAllocator.Initialize.{usable_ranges, IsMapped}
use aetheros_rust_project.Memory.FrameAllocator.Safety.{
  initialize-IsValid, initialize-InUsable, InUsable,
}
use aetheros_rust_project.Memory.FrameAllocator.Apart.{Apart, initialize-Apart, Ordered}
use aetheros_rust_project.Memory.FrameAllocator.Counts.{count_overstates}
use aetheros_rust_project.Memory.FrameAllocator.{
  FrameAllocator, Statics, UsableFrameRange, empty_range, initialize, scan_regions, scan_region,
  add_range, mapped_regions, new, allocate_frame, max_usable_ranges,
}

abbrev no_statics : Statics
no_statics = record { allocator = none; usable_frame_count = 0; usable_range_count = 0 }

-- Two usable regions, the first unaligned at both ends, with a reserved one between them.
abbrev small_map : BootInfo
small_map = record {
  hhdm_offset = 0;
  memory_map_entries = 3;
  framebuffer = none;
  memory_regions =
      record { base = 4000; length = 9000; kind = usable }
      ∷ record { base = 13000; length = 500; kind = reserved }
      ∷ record { base = 16384; length = 4096; kind = usable }
      ∷ replicate 61 empty_region;
}

-- The frames at 4096, 8192 and 16384.
abbrev small : FrameAllocator
small = record {
  ranges =
      record { start = 4096; end = 12288 }
      ∷ record { start = 16384; end = 20480 }
      ∷ replicate 30 empty_range;
  range_count = 2;
  current_range = 0;
  current_frame = 4096;
}

initialize_runs : (initialize small_map no_statics).allocator ≡ some small
unfolding initialize scan_regions scan_region add_range mapped_regions new align_up align_down
    region_end
initialize_runs = refl

small-IsValid : IsValid small
small-IsValid = record { counted = omega arith; ranges = omega arith; position = omega arith }

small_map-IsMapped : All IsMapped (mapped_regions small_map)
unfolding mapped_regions
small_map-IsMapped = omega arith

small_map-Ordered : Ordered 0 (mapped_regions small_map)
unfolding mapped_regions
small_map-Ordered = ground arith

allocate_frame-Refines_example : Refines small (allocate_frame small)
allocate_frame-Refines_example = allocate_frame-Refines small small-IsValid

initialize-IsValid_example :
    (a : FrameAllocator) × ((initialize small_map no_statics).allocator ≡ some a)
    × IsValid a
    × (remaining a ≡ all_frames (take max_usable_ranges (usable_ranges (mapped_regions small_map))))
initialize-IsValid_example = initialize-IsValid small_map no_statics small_map-IsMapped refl

initialize-InUsable_example : All (InUsable (mapped_regions small_map)) (remaining small)
initialize-InUsable_example =
    initialize-InUsable small_map no_statics small_map-IsMapped refl initialize_runs

initialize-Apart_example : Apart (remaining small)
initialize-Apart_example =
    initialize-Apart small_map no_statics small_map-IsMapped small_map-Ordered refl initialize_runs

few_ranges : length (usable_ranges (mapped_regions small_map)) ≤ max_usable_ranges
unfolding mapped_regions align_up align_down region_end
few_ranges = omega arith

-- `n` usable regions of one frame each, with gaps between them.
abbrev islands : ℕ → ℕ → List MemoryRegion
islands zero base = []
islands (suc n) base =
    record { base = base; length = frame_size; kind = usable } ∷ islands n (base + 8192)

abbrev wide_map : BootInfo
wide_map = record {
  hhdm_offset = 0;
  memory_map_entries = 33;
  framebuffer = none;
  memory_regions = islands 33 4096 ++ replicate 31 empty_region;
}

abbrev one_frame_ranges : ℕ → ℕ → List UsableFrameRange
one_frame_ranges zero start = []
one_frame_ranges (suc n) start =
    record { start = start; end = start + frame_size } ∷ one_frame_ranges n (start + 8192)

abbrev wide : FrameAllocator
wide = record {
  ranges = one_frame_ranges 32 4096;
  range_count = 32;
  current_range = 0;
  current_frame = 4096;
}

wide_runs : (initialize wide_map no_statics).allocator ≡ some wide
unfolding initialize scan_regions scan_region add_range mapped_regions new align_up align_down
    region_end
wide_runs = refl

wide_map-IsMapped : All IsMapped (mapped_regions wide_map)
unfolding mapped_regions
wide_map-IsMapped = omega arith

many_ranges : max_usable_ranges < length (usable_ranges (mapped_regions wide_map))
unfolding mapped_regions align_up align_down region_end
many_ranges = omega arith

count_overstates_example :
    length (remaining wide) < (initialize wide_map no_statics).usable_frame_count
count_overstates_example =
    count_overstates wide_map no_statics refl wide_map-IsMapped refl wide_runs many_ranges
