-- ===== src/Memory/Heap.antt =====
-- kernel/src/memory/heap.rs: the bump allocator behind `#[global_allocator]`, as one caller runs
-- it. `Threads` lets callers interleave at every access of the atomic `next`.
pub mod Alloc
pub mod Threads
pub mod Used
mod Tests
use aetheros_rust_project.Prelude.{
  ℕ, ◌+◌, ◌-◌, ◌*◌, ◌||◌, Option, none, some, ltb, ◌==◌, if◌then◌else◌,
}
use aetheros_rust_project.Prelude.Words.{u64_mod, add64, and_not64}

abbrev pub heap_size : ℕ
heap_size = 128 * 1024

pub record BumpAllocator : Type 0 where
  pub heap_start : ℕ
  pub heap_end : ℕ
  pub next : ℕ

-- `BumpAllocator::new`
abbrev pub new : BumpAllocator
new = record { heap_start = 0; heap_end = 0; next = 0 }

-- `BumpAllocator::initialize`
pub initialize : BumpAllocator → ℕ → ℕ → BumpAllocator
initialize b start size = record { heap_start = start; heap_end = add64 start size; next = start }

pub heap_used : BumpAllocator → ℕ
heap_used b = if b.heap_start == 0 || ltb b.next b.heap_start then 0 else b.next - b.heap_start

-- `core::alloc::Layout`
pub record Layout : Type 0 where
  pub size : ℕ
  pub align : ℕ

-- `a.checked_add(b)` on usize
abbrev pub checked_add : ℕ → ℕ → Option ℕ
checked_add a b = if ltb (a + b) u64_mod then some (a + b) else none

-- A block that a round of the loop wants, and the value of `next` behind it.
pub record Proposal : Type 0 where
  pub aligned : ℕ
  pub next : ℕ

abbrev within : ℕ → ℕ → Option ℕ → Option Proposal
within heap_end aligned none = none
within heap_end aligned (some next) =
    if ltb heap_end next then none else some (record { aligned = aligned; next = next })

-- The loop's body between the two loads and the `compare_exchange`; `none` stands for the early
-- returns of `null_mut()`.
unfoldable pub propose : ℕ → ℕ → Layout → Option Proposal
propose current heap_end layout =
    let align_mask = layout.align - 1 in
    let aligned = and_not64 (add64 current align_mask) align_mask in
    if current == 0 then none else within heap_end aligned (checked_add aligned layout.size)

-- `GlobalAlloc::alloc` for a caller that is not interrupted: its `compare_exchange` finds the value
-- that it loaded. The result 0 is `null_mut()`.
unfoldable pub alloc : BumpAllocator → Layout → ℕ × BumpAllocator
unfolding propose
alloc b layout = elim (propose b.next b.heap_end layout) [
  | none ↦ (0, b)
  | some p ↦ (p.aligned, record b { next = p.next })
]

-- `GlobalAlloc::dealloc` gives nothing back.
abbrev pub dealloc : BumpAllocator → ℕ → Layout → BumpAllocator
dealloc b ptr layout = b
