-- ===== src/Memory/FrameAllocator.antt =====
-- kernel/src/memory/frame_allocator.rs: the allocator of 4 KiB physical frames, as one caller
-- runs it. The two atomics are fields of the state.
pub mod Align
pub mod Frames
pub mod Progress
pub mod Refine
pub mod Initialize
pub mod Safety
pub mod Apart
pub mod Counts
pub mod Threads
mod Tests
use aetheros_rust_project.Prelude.{
  ℕ, zero, suc, ◌+◌, ◌/◌, min, Bool, true, false, ◌||◌, not, List, [], ◌∷◌, Option, none, some,
  length, get_elem?, get_or, set, take, replicate, ltb, leb, ◌==◌, if◌then◌else◌,
}
use aetheros_rust_project.Prelude.Words.{add64, sub64}
use aetheros_rust_project.BootInfo.{BootInfo, MemoryRegion, MemoryRegionKind, region_end, usable}
use Align.{frame_size, align_up, align_down}

abbrev pub max_usable_ranges : ℕ
max_usable_ranges = 32

pub record UsableFrameRange : Type 0 where
  pub start : ℕ
  pub end : ℕ

-- `UsableFrameRange::EMPTY`
abbrev pub empty_range : UsableFrameRange
empty_range = record { start = 0; end = 0 }

-- `ranges` holds 32 entries, of which the first `range_count` count.
pub record FrameAllocator : Type 0 where
  pub ranges : List UsableFrameRange
  pub range_count : ℕ
  pub current_range : ℕ
  pub current_frame : ℕ

abbrev pub is_usable : MemoryRegionKind → Bool
is_usable usable = true
is_usable _ = false

-- The locals of the loop in `initialize`.
pub record Scan : Type 0 where
  pub ranges : List UsableFrameRange
  pub range_count : ℕ
  pub total_frames : ℕ

abbrev pub initial_scan : Scan
initial_scan = record {
  ranges = replicate max_usable_ranges empty_range;
  range_count = 0;
  total_frames = 0;
}

-- The tail of the loop's body, after the two `continue`s.
unfoldable pub add_range : Scan → ℕ → ℕ → Scan
add_range s start end = record (if ltb s.range_count max_usable_ranges then stored else s) {
  total_frames = add64 s.total_frames (sub64 end start / frame_size);
}
  where
    stored : Scan
    stored = record s {
      ranges = set s.ranges s.range_count (record { start = start; end = end });
      range_count = s.range_count + 1;
    }

-- One round of the loop over the memory map.
unfoldable pub scan_region : Scan → MemoryRegion → Scan
scan_region s region =
    if not (is_usable region.kind) || ltb region.length frame_size
    then s
    else if leb (align_down (region_end region)) (align_up region.base)
    then s
    else add_range s (align_up region.base) (align_down (region_end region))

unfoldable pub scan_regions : Scan → List MemoryRegion → Scan
scan_regions s [] = s
scan_regions s (r ∷ rs) = scan_regions (scan_region s r) rs

-- `FrameAllocator::new`
unfoldable pub new : List UsableFrameRange → ℕ → FrameAllocator
new ranges range_count = record {
  ranges = ranges;
  range_count = range_count;
  current_range = 0;
  current_frame = if ltb 0 range_count then (get_or ranges 0 empty_range).start else 0;
}

-- The module's statics. `ALLOCATOR` is a `Once`: a second `call_once` keeps the first value.
pub record Statics : Type 0 where
  pub allocator : Option FrameAllocator
  pub usable_frame_count : ℕ
  pub usable_range_count : ℕ

abbrev pub call_once : Option FrameAllocator → FrameAllocator → Option FrameAllocator
call_once none a = some a
call_once (some old) a = some old

-- The regions that `initialize` looks at.
unfoldable pub mapped_regions : BootInfo → List MemoryRegion
mapped_regions b = take (min b.memory_map_entries (length b.memory_regions)) b.memory_regions

unfoldable pub initialize : BootInfo → Statics → Statics
initialize b st =
    let s = scan_regions initial_scan (mapped_regions b) in
    record {
      allocator = call_once st.allocator (new s.ranges s.range_count);
      usable_frame_count = s.total_frames;
      usable_range_count = s.range_count;
    }

-- What a round of a retry loop does: it returns, goes round again, or indexes out of bounds.
pub data Turn : Type 0 where
  finish : Option ℕ → FrameAllocator → Turn
  again : FrameAllocator → Turn
  panic : Turn

-- `advance_range`, handing its `bool` to the two branches of its caller's `if`.
pub advance_range : FrameAllocator → ℕ → (FrameAllocator → Turn) → (FrameAllocator → Turn) → Turn
advance_range a range_index on_false on_true =
    if leb a.range_count (range_index + 1)
    then on_false (record a { current_range = a.range_count })
    else if a.current_range == range_index
    then elim (get_elem? a.ranges (range_index + 1)) [
      | none ↦ panic
      | some r ↦ on_true (record a { current_range = range_index + 1; current_frame = r.start })
    ]
    else on_true a

-- The body of the loop from `let current` on, at the range that was loaded. One caller's
-- `compare_exchange` succeeds when the value is still the one that it loaded.
pub attempt_in : FrameAllocator → ℕ → ℕ → UsableFrameRange → Turn
unfolding advance_range
attempt_in a range_index current range =
    if ltb current range.start || leb range.end current
    then advance_range a range_index (finish none) again
    else if ltb range.end (add64 current frame_size)
    then advance_range a range_index (finish leftover) again
    else if a.current_frame == current
    then finish (some current) (record a { current_frame = add64 current frame_size })
    else again a
  where
    leftover : Option ℕ
    leftover = if leb (add64 current frame_size) range.end then some current else none

-- One round of the loop in `allocate_frame`.
pub attempt : FrameAllocator → Turn
unfolding attempt_in
attempt a =
    if leb a.range_count a.current_range
    then finish none a
    else elim (get_elem? a.ranges a.current_range) [
      | none ↦ panic
      | some range ↦ attempt_in a a.current_range a.current_frame range
    ]

-- How a call ends. `out_of_fuel` is no outcome of the code: `Frames` proves that it is not met.
pub data Outcome : Type 0 where
  returns : Option ℕ → FrameAllocator → Outcome
  panics : Outcome
  out_of_fuel : Outcome

pub allocate_loop : ℕ → FrameAllocator → Outcome
allocate_loop zero a = out_of_fuel
allocate_loop (suc fuel) a = elim (attempt a) [
  | finish r b ↦ returns r b
  | again b ↦ allocate_loop fuel b
  | panic ↦ panics
]

-- Each retry moves `current_range` on by one, so the ranges bound the rounds.
pub allocate_frame : FrameAllocator → Outcome
unfolding allocate_loop
allocate_frame a = allocate_loop (suc a.range_count) a
