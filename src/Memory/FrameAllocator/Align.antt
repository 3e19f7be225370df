-- ===== src/Memory/FrameAllocator/Align.antt =====
-- `align_up` and `align_down` of kernel/src/memory/frame_allocator.rs, at the frame size.
use aetheros_rust_project.Prelude.{ℕ, ◌+◌, ◌-◌, ◌%◌, ◌≤◌, ◌<◌, ◌≡◌, arith, ◌==◌, if◌then◌else◌}
use aetheros_rust_project.Prelude.Words.{u64_mod, add64}

abbrev pub frame_size : ℕ
frame_size = 4096

-- The sum wraps for a value past the last frame boundary of the address space.
unfoldable pub align_up : ℕ → ℕ
align_up value =
    if value % frame_size == 0 then value else add64 value (frame_size - value % frame_size)

unfoldable pub align_down : ℕ → ℕ
align_down value = value - value % frame_size

-- Where a whole frame further on still fits u64, `align_up` gives the least frame boundary that is
-- not below the value.
pub align_up-least :
    (v : ℕ)
    → v + frame_size ≤ u64_mod
    → (v ≤ align_up v) × (align_up v < v + frame_size) × (align_up v % frame_size ≡ 0)
unfolding align_up
align_up-least v h = ground arith

-- `align_down` gives the greatest frame boundary that is not above the value.
pub align_down-greatest :
    (v : ℕ) → (align_down v ≤ v) × (v < align_down v + frame_size) × (align_down v % frame_size ≡ 0)
unfolding align_down
align_down-greatest v = omega arith
