-- ===== src/Arch/Boot/Tests.antt =====
-- The boot stage with a small memory map.
use aetheros_rust_project.Prelude.{
  ℕ, ◌≡◌, refl, true, List, [], ◌∷◌, none, some, arith, All, replicate,
}
use aetheros_rust_project.Prelude.Text.{Text}
use aetheros_rust_project.BootInfo.{reserved, region_end}
use aetheros_rust_project.Memory.FrameAllocator.Align.{align_up, align_down}
use aetheros_rust_project.Memory.FrameAllocator.{
  FrameAllocator, Statics, empty_range, initialize, mapped_regions, scan_regions, scan_region,
  add_range, new,
}
use aetheros_rust_project.Memory.FrameAllocator.Frames.{remaining}
use aetheros_rust_project.Arch.Boot.{
  MapEntry, Limine, classify_memory_region, normalize_regions, boot_info_of, enter,
}
use aetheros_rust_project.Arch.Boot.Collect.{InUsableEntry, boot-InUsableEntry}
use aetheros_rust_project.Arch.Boot.Enter.{Ends, trip_of, fresh, enter-Ends}

abbrev entries : List MapEntry
entries =
    record { base = 0; length = 0x1000; type_ = 1 }
    ∷ record { base = 0x1000; length = 0x2800; type_ = 0 }
    ∷ record { base = 0x10_0000; length = 0x5000; type_ = 6 }
    ∷ []

abbrev machine : Limine
machine = record {
  is_supported = true;
  hhdm_offset = some 0xffff_8000_0000_0000;
  memory_map = some entries;
  framebuffers = none;
}

abbrev bracketed : ℕ → Text
bracketed n = n ∷ []

reads_types : classify_memory_region 3 ≡ reserved
unfolding classify_memory_region
reads_types = refl

abbrev no_statics : Statics
no_statics = record { allocator = none; usable_frame_count = 0; usable_range_count = 0 }

abbrev two_frames : FrameAllocator
two_frames = record {
  ranges = record { start = 0x1000; end = 0x3000 } ∷ replicate 31 empty_range;
  range_count = 1;
  current_range = 0;
  current_frame = 0x1000;
}

takes_two_frames : (initialize (boot_info_of 0 entries none) no_statics).allocator ≡ some two_frames
unfolding boot_info_of initialize scan_regions scan_region add_range new mapped_regions align_up
    align_down region_end normalize_regions classify_memory_region
takes_two_frames = refl

enter-Ends_example : Ends (trip_of machine) (enter bracketed bracketed machine fresh)
enter-Ends_example = enter-Ends bracketed bracketed machine

boot-InUsableEntry_example : All (InUsableEntry entries) (remaining two_frames)
boot-InUsableEntry_example =
    boot-InUsableEntry 0 entries none no_statics (omega arith) refl takes_two_frames
