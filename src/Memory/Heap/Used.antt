-- ===== src/Memory/Heap/Used.antt =====
-- What kernel/src/memory/heap.rs reports as used.
use aetheros_rust_project.Prelude.{ℕ, ◌≡◌, arith}
use aetheros_rust_project.Memory.Heap.{BumpAllocator, initialize, heap_used}

-- A heap that has just been initialized has nothing in use, wherever it is.
pub heap_used-initialize :
    (b : BumpAllocator) (start size : ℕ) → heap_used (initialize b start size) ≡ 0
unfolding heap_used initialize
heap_used-initialize b start size = ground arith
