-- ===== src/Memory/FrameAllocator/Refine.antt =====
-- `allocate_frame` of kernel/src/memory/frame_allocator.rs against a queue of frames.
use aetheros_rust_project.Prelude.{
  ℕ, zero, suc, ◌-◌, ◌<◌, ◌≡◌, refl, sym, ap, ◌∙◌, List, [], ◌∷◌, Option, none, some, arith,
}
use aetheros_rust_project.Memory.FrameAllocator.Frames.{
  remaining, IsValid, Progress, exhausted, granted, moved,
}
use aetheros_rust_project.Memory.FrameAllocator.Progress.{attempt-Progress}
use aetheros_rust_project.Memory.FrameAllocator.{
  FrameAllocator, Turn, Outcome, returns, attempt, allocate_loop, allocate_frame,
}

abbrev pub head? : List ℕ → Option ℕ
head? [] = none
head? (x ∷ xs) = some x

abbrev pub tail : List ℕ → List ℕ
tail [] = []
tail (x ∷ xs) = xs

-- The outcome is the one of taking a frame from the queue of what remains.
abbrev pub Refines : FrameAllocator → Outcome → Type 0
Refines a out =
    (b : FrameAllocator) × (out ≡ returns (head? (remaining a)) b)
    × (remaining b ≡ tail (remaining a))
    × IsValid b

-- One round, with what the rest of the loop does.
loop_step :
    (fuel : ℕ) (a : FrameAllocator) (t : Turn)
    → attempt a ≡ t
    → Progress a t
    → ((b : FrameAllocator)
        → IsValid b
        → a.range_count - b.current_range < a.range_count - a.current_range
        → b.range_count ≡ a.range_count
        → Refines b (allocate_loop fuel b))
    → Refines a (allocate_loop (suc fuel) a)
unfolding allocate_loop
loop_step fuel a t e (exhausted b none_left still v) ih = (
  b,
  rw (e, allocate_loop) (ap (λ l. returns (head? l) b) (sym none_left)),
  still ∙ ap tail (sym none_left),
  v,
)
loop_step fuel a t e (granted f b step v) ih =
    (b, rw (e, allocate_loop) (ap (λ l. returns (head? l) b) (sym step)), ap tail (sym step), v)
loop_step fuel a t e (moved b same v count before inside) ih =
    let (c, out, left, w) = ih b v (omega arith) count in
    (c, rw (e, allocate_loop) (out ∙ ap (λ l. returns (head? l) c) same), left ∙ ap tail same, w)

pub allocate_loop-Refines :
    (fuel : ℕ) (a : FrameAllocator)
    → IsValid a
    → a.range_count - a.current_range < fuel
    → Refines a (allocate_loop fuel a)
allocate_loop-Refines zero a v enough = absurd (omega arith)
allocate_loop-Refines (suc fuel) a v enough =
    loop_step fuel a (attempt a) refl (attempt-Progress a v)
      (λ b w less count. allocate_loop-Refines fuel b w (omega arith))

-- From a valid state `allocate_frame` returns: it hands out the first frame that remains and leaves
-- the others in order, or reports that none remains, and the state stays valid.
pub allocate_frame-Refines : (a : FrameAllocator) → IsValid a → Refines a (allocate_frame a)
unfolding allocate_frame
allocate_frame-Refines a v = allocate_loop-Refines (suc a.range_count) a v (omega arith)
