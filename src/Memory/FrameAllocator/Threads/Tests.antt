-- ===== src/Memory/FrameAllocator/Threads/Tests.antt =====
-- Callers of `allocate_frame` that get in each other's way.
use aetheros_rust_project.Prelude.{
  ℕ, zero, suc, ◌+◌, ◌≤◌, ◌<◌, ◌≡◌, refl, [], ◌∷◌, arith, All, replicate,
}
use aetheros_rust_project.Memory.FrameAllocator.{FrameAllocator, empty_range}
use aetheros_rust_project.Memory.FrameAllocator.Threads.{
  System, start, Reach, here, next, call, pick, load, grant, advance, skip, store, range_at,
  IsSeparated, InRange, Disjoint,
}
use aetheros_rust_project.Memory.FrameAllocator.Threads.Safety.{grants-Disjoint}

-- One frame in each of two ranges, with a gap between them.
abbrev gapped : FrameAllocator
gapped = record {
  ranges =
      record { start = 0x1000; end = 0x2000 }
      ∷ record { start = 0x8000; end = 0x9000 }
      ∷ replicate 30 empty_range;
  range_count = 2;
  current_range = 0;
  current_frame = 0x1000;
}

gapped_nonempty : (k : ℕ) → k < 2 → (range_at gapped k).start < (range_at gapped k).end
gapped_nonempty zero h = omega arith
gapped_nonempty (suc zero) h = omega arith
gapped_nonempty (suc (suc k)) h = absurd (omega arith)

gapped_fits : (k : ℕ) → k < 2 → (range_at gapped k).end + 4096 ≤ 0x1_0000_0000_0000_0000
gapped_fits zero h = omega arith
gapped_fits (suc zero) h = omega arith
gapped_fits (suc (suc k)) h = absurd (omega arith)

gapped_gap : (j k : ℕ) → j < k → k < 2 → (range_at gapped j).end < (range_at gapped k).start
gapped_gap zero (suc zero) h h' = omega arith
gapped_gap (suc j) (suc zero) h h' = absurd (omega arith)
gapped_gap j zero h h' = absurd (omega arith)
gapped_gap j (suc (suc k)) h h' = absurd (omega arith)

gapped-IsSeparated : IsSeparated gapped
gapped-IsSeparated = record {
  nonempty = gapped_nonempty;
  fits = gapped_fits;
  gap = gapped_gap;
  first_range = refl;
  first_frame = refl;
}

-- Caller 1 finds the range used up that caller 0 is leaving, and goes round again.
two_callers : (s : System) × Reach gapped s × (s.grants ≡ 0x8000 ∷ 0x1000 ∷ [])
two_callers =
    let origin : Reach gapped (start gapped) = here in
    let first =
      next (next (next (next origin (call 0 refl)) (pick 0 refl (omega arith))) (load 0 refl))
        (grant 0 refl refl refl) in
    let both =
      next (next (next (next first (call 0 refl)) (call 1 refl)) (pick 0 refl (omega arith)))
        (pick 1 refl (omega arith)) in
    let full = next (next both (load 0 refl)) (load 1 refl) in
    let moving =
      next (next full (advance 0 refl refl (omega arith) refl))
        (skip 1 refl refl (omega arith) (omega arith)) in
    let opened = next (next moving (store 0 refl)) (pick 1 refl (omega arith)) in
    (_, next (next opened (load 1 refl)) (grant 1 refl refl refl), refl)

grants-Disjoint_example :
    All (InRange gapped) two_callers.0.grants × Disjoint gapped two_callers.0.grants
grants-Disjoint_example = grants-Disjoint gapped gapped-IsSeparated (omega arith) two_callers.1

-- Without the gap: caller 1 takes the frame that `current_frame` has run into, and the late store of
-- caller 0 brings it back.
abbrev adjacent : FrameAllocator
adjacent = record {
  ranges =
      record { start = 0x1000; end = 0x2000 }
      ∷ record { start = 0x2000; end = 0x3000 }
      ∷ replicate 30 empty_range;
  range_count = 2;
  current_range = 0;
  current_frame = 0x1000;
}

handed_out_twice : (s : System) × Reach adjacent s × (s.grants ≡ 0x2000 ∷ 0x2000 ∷ 0x1000 ∷ [])
handed_out_twice =
    let origin : Reach adjacent (start adjacent) = here in
    let first =
      next (next (next (next origin (call 0 refl)) (pick 0 refl (omega arith))) (load 0 refl))
        (grant 0 refl refl refl) in
    let full = next (next (next first (call 0 refl)) (pick 0 refl (omega arith))) (load 0 refl) in
    let moving = next full (advance 0 refl refl (omega arith) refl) in
    let early =
      next (next (next (next moving (call 1 refl)) (pick 1 refl (omega arith))) (load 1 refl))
        (grant 1 refl refl refl) in
    let late = next (next (next early (store 0 refl)) (pick 0 refl (omega arith))) (load 0 refl) in
    (_, next late (grant 0 refl refl refl), refl)
