-- ===== src/Memory/FrameAllocator/Frames.antt =====
-- What the frame allocator promises, against kernel/src/memory/frame_allocator.rs: the frames of
-- its ranges, one after the other.
use aetheros_rust_project.Prelude.{
  ℕ, zero, suc, ◌+◌, ◌-◌, ◌/◌, ◌%◌, ◌≤◌, ◌<◌, ◌≡◌, ap, List, [], ◌∷◌, ◌++◌, none, some, arith,
  length, take, drop, All, length-take,
}
use aetheros_rust_project.Prelude.Words.{u64_mod}
use aetheros_rust_project.Memory.FrameAllocator.Align.{frame_size}
use aetheros_rust_project.Memory.FrameAllocator.{
  UsableFrameRange, FrameAllocator, Turn, finish, again,
}

-- `n` frames from an address on.
abbrev pub frames : ℕ → ℕ → List ℕ
frames start zero = []
frames start (suc n) = start ∷ frames (start + frame_size) n

abbrev pub frames_between : ℕ → ℕ → List ℕ
frames_between start end = frames start ((end - start) / frame_size)

abbrev pub all_frames : List UsableFrameRange → List ℕ
all_frames [] = []
all_frames (r ∷ rs) = frames_between r.start r.end ++ all_frames rs

-- What is left from an address in the first of some ranges.
abbrev pub frames_from : List UsableFrameRange → ℕ → List ℕ
frames_from [] current = []
frames_from (r ∷ rs) current = frames_between current r.end ++ all_frames rs

abbrev pub active : FrameAllocator → List UsableFrameRange
active a = take a.range_count a.ranges

-- The abstract view: the frames that are still to be handed out, in order.
abbrev pub remaining : FrameAllocator → List ℕ
remaining a = frames_from (drop a.current_range (active a)) a.current_frame

pub record IsRange (r : UsableFrameRange) : Type 0 where
  pub nonempty : r.start < r.end
  pub fits : r.end < u64_mod
  pub start_aligned : r.start % frame_size ≡ 0
  pub end_aligned : r.end % frame_size ≡ 0

-- `current_frame` lies in the first of the ranges that are left.
abbrev pub IsPosition : List UsableFrameRange → ℕ → Type 0
IsPosition [] current = Unit
IsPosition (r ∷ rs) current = (r.start ≤ current) × (current ≤ r.end) × (current % frame_size ≡ 0)

pub record IsValid (a : FrameAllocator) : Type 0 where
  pub counted : a.range_count ≤ length a.ranges
  pub ranges : All IsRange (active a)
  pub position : IsPosition (drop a.current_range (active a)) a.current_frame

-- What a round of the loop does to the view.
pub data Progress (a : FrameAllocator) : Turn → Type 0 where
  exhausted :
      (b : FrameAllocator)
      → remaining a ≡ []
      → remaining b ≡ []
      → IsValid b
      → Progress a (finish none b)
  granted :
      (f : ℕ) (b : FrameAllocator)
      → remaining a ≡ f ∷ remaining b
      → IsValid b
      → Progress a (finish (some f) b)
  moved :
      (b : FrameAllocator)
      → remaining b ≡ remaining a
      → IsValid b
      → b.range_count ≡ a.range_count
      → a.current_range < b.current_range
      → a.current_range < a.range_count
      → Progress a (again b)

pub length-active :
    (a : FrameAllocator) → a.range_count ≤ length a.ranges → length (active a) ≡ a.range_count
length-active a h = omega (arith, length-take a.range_count a.ranges)

pub frames_between_step :
    (c e : ℕ)
    → c < e
    → c % frame_size ≡ 0
    → e % frame_size ≡ 0
    → frames_between c e ≡ c ∷ frames_between (c + frame_size) e
frames_between_step c e lt hc he =
    ap (frames c)
      (let q : (e - c) / frame_size ≡ suc ((e - (c + frame_size)) / frame_size) = omega arith in q)

pub frames_between_end : (c e : ℕ) → e ≤ c → frames_between c e ≡ []
frames_between_end c e h = ap (frames c) (let q : (e - c) / frame_size ≡ 0 = omega arith in q)
