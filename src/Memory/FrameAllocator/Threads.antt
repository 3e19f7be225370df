-- ===== src/Memory/FrameAllocator/Threads.antt =====
-- `FrameAllocator::allocate_frame` of kernel/src/memory/frame_allocator.rs under any interleaving of
-- its callers. A step is one access of one of the two atomics with the computation up to the next.
mod Invariant
mod Steps
pub mod Safety
mod Tests
use aetheros_rust_project.Prelude.{
  ℕ, suc, ◌+◌, ◌≤◌, ◌<◌, ◌≡◌, ◌≢◌, ◌⊎◌, Bool, true, false, ◌||◌, List, [], ◌∷◌, get_or, ltb, leb,
  ◌==◌, if◌then◌else◌, All,
}
use aetheros_rust_project.Prelude.Words.{u64_mod, add64}
use aetheros_rust_project.Memory.FrameAllocator.Align.{frame_size}
use aetheros_rust_project.Memory.FrameAllocator.{FrameAllocator, UsableFrameRange, empty_range}

-- Where a caller stands, with the locals that are live there.
pub data Pc : Type 0 where
  idle : Pc
  looping : Pc  -- at the head of the loop
  picked : (index : ℕ) → Pc  -- after the load of `current_range`
  loaded : (index current : ℕ) → Pc  -- after the load of `current_frame`
  storing : (index : ℕ) → Pc  -- in `advance_range`, before the store of `current_frame`

abbrev pub update : (ℕ → Pc) → ℕ → Pc → ℕ → Pc
update f i p j = if i == j then p else f j

-- `grants` is the history of the frames that callers returned, the newest first; the code does not
-- keep it. The `ranges` and `range_count` of the allocator do not change.
pub record System : Type 0 where
  pub current_range : ℕ
  pub current_frame : ℕ
  pub pc : ℕ → Pc
  pub grants : List ℕ

-- The two tests that lead to `advance_range`.
abbrev pub is_used_up : UsableFrameRange → ℕ → Bool
is_used_up range current =
    ltb current range.start || leb range.end current || ltb range.end (add64 current frame_size)

module _ (a : FrameAllocator) where
  abbrev pub range_at : ℕ → UsableFrameRange
  range_at k = get_or a.ranges k empty_range

  -- `exhausted` and `close` return `None`: after `close` the value of `then_some` is `None`, or the
  -- caller was at the first of the two tests.
  pub data Step (s : System) : System → Type 0 where
    call : (i : ℕ) → s.pc i ≡ idle → Step s (record s { pc = update s.pc i looping })
    exhausted :
        (i : ℕ)
        → s.pc i ≡ looping
        → a.range_count ≤ s.current_range
        → Step s (record s { pc = update s.pc i idle })
    pick :
        (i : ℕ)
        → s.pc i ≡ looping
        → s.current_range < a.range_count
        → Step s (record s { pc = update s.pc i (picked s.current_range) })
    load :
        (i : ℕ) {r : ℕ}
        → s.pc i ≡ picked r
        → Step s (record s { pc = update s.pc i (loaded r s.current_frame) })
    close :
        (i : ℕ) {r c : ℕ}
        → s.pc i ≡ loaded r c
        → is_used_up (range_at r) c ≡ true
        → a.range_count ≤ suc r
        → Step s (record s { current_range = a.range_count; pc = update s.pc i idle })
    advance :
        (i : ℕ) {r c : ℕ}
        → s.pc i ≡ loaded r c
        → is_used_up (range_at r) c ≡ true
        → suc r < a.range_count
        → s.current_range ≡ r
        → Step s (record s { current_range = suc r; pc = update s.pc i (storing (suc r)) })
    skip :
        (i : ℕ) {r c : ℕ}
        → s.pc i ≡ loaded r c
        → is_used_up (range_at r) c ≡ true
        → suc r < a.range_count
        → s.current_range ≢ r
        → Step s (record s { pc = update s.pc i looping })
    store :
        (i : ℕ) {k : ℕ}
        → s.pc i ≡ storing k
        → Step s (record s { current_frame = (range_at k).start; pc = update s.pc i looping })
    grant :
        (i : ℕ) {r c : ℕ}
        → s.pc i ≡ loaded r c
        → is_used_up (range_at r) c ≡ false
        → s.current_frame ≡ c
        → Step s (record s {
          current_frame = add64 c frame_size;
          pc = update s.pc i idle;
          grants = c ∷ s.grants;
        })
    retry :
        (i : ℕ) {r c : ℕ}
        → s.pc i ≡ loaded r c
        → is_used_up (range_at r) c ≡ false
        → s.current_frame ≢ c
        → Step s (record s { pc = update s.pc i looping })

  -- What `FrameAllocator::new` sets up.
  abbrev pub start : System
  start = record {
    current_range = a.current_range;
    current_frame = a.current_frame;
    pc = λ i. idle;
    grants = [];
  }

  pub data Reach : System → Type 0 where
    here : Reach start
    next : {s t : System} → Reach s → Step s t → Reach t

  -- The ranges are separated by gaps and end a frame below the end of the address space, and no
  -- frame has been handed out.
  pub record IsSeparated : Type 0 where
    pub nonempty : (k : ℕ) → k < a.range_count → (range_at k).start < (range_at k).end
    pub fits : (k : ℕ) → k < a.range_count → (range_at k).end + frame_size ≤ u64_mod
    pub gap : (j k : ℕ) → j < k → k < a.range_count → (range_at j).end < (range_at k).start
    pub first_range : a.current_range ≡ 0
    pub first_frame : a.current_frame ≡ (range_at 0).start

  -- The frame lies whole in a range of the allocator.
  pub record InRange (f : ℕ) : Type 0 where
    pub index : ℕ
    pub counted : index < a.range_count
    pub above : (range_at index).start ≤ f
    pub below : f + frame_size ≤ (range_at index).end

  abbrev pub Disjoint : List ℕ → Type 0
  Disjoint [] = Unit
  Disjoint (f ∷ fs) = All (λ g. (f + frame_size ≤ g) ⊎ (g + frame_size ≤ f)) fs × Disjoint fs
