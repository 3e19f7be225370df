-- ===== src/Memory/Heap/Tests.antt =====
-- The kernel heap on small requests, alone and with two callers.
use aetheros_rust_project.Prelude.{ℕ, ◌^◌, ◌≤◌, ◌≡◌, refl, ◌⊎◌, List, [], ◌∷◌, arith}
use aetheros_rust_project.Memory.Heap.{
  BumpAllocator, Layout, Proposal, propose, alloc, heap_used, initialize, new, heap_size,
}
use aetheros_rust_project.Memory.Heap.Alloc.{
  IsLayout, IsValid, IsFresh, HasNoRoom, alloc_lem, alloc_wraps,
}
use aetheros_rust_project.Memory.Heap.Threads.{
  Reach, Stacked, System, Grant, grants-Stacked, call, load, prepare, cas_win, cas_lose, here, next,
}

abbrev word : Layout
word = record { size = 24; align = 16 }

abbrev small_heap : BumpAllocator
small_heap = record { heap_start = 0x1000; heap_end = 0x1100; next = 0x1008 }

word-IsLayout : IsLayout word
word-IsLayout = record { shift = 4; power = refl; small = omega arith }

small_heap-IsValid : IsValid small_heap
small_heap-IsValid = omega arith

alloc_runs : alloc small_heap word ≡ (0x1010, record small_heap { next = 0x1028 })
unfolding alloc
alloc_runs = refl

used_runs : heap_used (initialize new 0x1000 heap_size) ≡ 0
unfolding heap_used initialize
used_runs = refl

alloc_lem_example :
    ((p : Proposal) × (alloc small_heap word ≡ (p.aligned, record small_heap { next = p.next }))
      × IsFresh small_heap word p)
    ⊎ ((alloc small_heap word ≡ (0, small_heap)) × HasNoRoom small_heap word)
alloc_lem_example = alloc_lem small_heap word small_heap-IsValid word-IsLayout (omega arith)

-- The kernel image is linked 2 GiB below the end of the address space.
abbrev kernel_heap : BumpAllocator
kernel_heap = record {
  heap_start = 0xffffffff80100000;
  heap_end = 0xffffffff80120000;
  next = 0xffffffff80100000;
}

abbrev huge_page : Layout
huge_page = record { size = 4096; align = 2 ^ 31 }

alloc_wraps_example :
    (alloc kernel_heap huge_page ≡ (0, record kernel_heap { next = 4096 }))
    × (¬ IsValid (alloc kernel_heap huge_page).1)
alloc_wraps_example =
    alloc_wraps kernel_heap huge_page (omega arith)
      (record { shift = 31; power = refl; small = omega arith }) (omega arith) (omega arith)
      (omega arith) (omega arith)

abbrev same : ℕ → Layout
same i = word

-- Two callers load the same `next`; the second loses its `compare_exchange` and goes round again.
abbrev race : List Grant
race =
    record { owner = 1; block = record { aligned = 0x1030; next = 0x1048 } }
    ∷ record { owner = 0; block = record { aligned = 0x1010; next = 0x1028 } }
    ∷ []

race_reach : (s : System) × Reach same small_heap s × (s.grants ≡ race) × (s.heap.next ≡ 0x1048)
unfolding propose
race_reach = (
  _,
  next
      (next
        (next
          (next
            (next
              (next
                (next
                  (next (next (next (next here (call 0 refl)) (load 0 refl)) (call 1 refl))
                    (load 1 refl))
                  (prepare 0 refl refl))
                (prepare 1 refl refl))
              (cas_win 0 refl refl))
            (cas_lose 1 refl (omega arith)))
          (load 1 refl))
        (prepare 1 refl refl))
      (cas_win 1 refl refl),
  refl,
  refl,
)

grants-Stacked_example :
    Stacked same 0x1008 race_reach.0.heap.next race_reach.0.grants
    × (race_reach.0.heap.next ≤ 0x1100)
grants-Stacked_example =
    grants-Stacked same small_heap small_heap-IsValid (λ i. word-IsLayout) (λ i. omega arith)
      race_reach.1
