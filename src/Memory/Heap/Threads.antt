-- ===== src/Memory/Heap/Threads.antt =====
-- `alloc` of kernel/src/memory/heap.rs under any interleaving of its callers. A step is one access
-- of the shared atomics with the computation up to the next one.
use aetheros_rust_project.Prelude.{
  ℕ, ◌+◌, ◌≤◌, ◌≡◌, refl, ◌≢◌, List, [], ◌∷◌, none, some, arith, ◌==◌, if◌then◌else◌, Bool-cases,
  ==_iff, subst, inl, inr,
}
use aetheros_rust_project.Prelude.Words.{u64_mod}
use aetheros_rust_project.Memory.Heap.{BumpAllocator, Layout, Proposal, propose}
use aetheros_rust_project.Memory.Heap.Alloc.{IsLayout, IsAligned, IsValid, IsFresh, propose-some}

-- Where a caller stands in `alloc`, with the locals that are live there.
pub data Pc : Type 0 where
  idle : Pc
  looping : Pc  -- at the head of the loop
  loaded : (current : ℕ) → Pc  -- after the load of `next`
  ready : (current : ℕ) (p : Proposal) → Pc  -- before the `compare_exchange`

abbrev pub update : (ℕ → Pc) → ℕ → Pc → ℕ → Pc
update f i p j = if i == j then p else f j

-- A block that was handed to a caller.
pub record Grant : Type 0 where
  pub owner : ℕ
  pub block : Proposal

-- `grants` is the history, the newest first; the code does not keep it.
pub record System : Type 0 where
  pub heap : BumpAllocator
  pub pc : ℕ → Pc
  pub grants : List Grant

-- Caller `i` asks for `request i`.
module _ (request : ℕ → Layout) where
  pub data Step (s : System) : System → Type 0 where
    call : (i : ℕ) → s.pc i ≡ idle → Step s (record s { pc = update s.pc i looping })
    load :
        (i : ℕ) → s.pc i ≡ looping → Step s (record s { pc = update s.pc i (loaded s.heap.next) })
    refuse :
        (i : ℕ) {c : ℕ}
        → s.pc i ≡ loaded c
        → propose c s.heap.heap_end (request i) ≡ none
        → Step s (record s { pc = update s.pc i idle })
    prepare :
        (i : ℕ) {c : ℕ} {p : Proposal}
        → s.pc i ≡ loaded c
        → propose c s.heap.heap_end (request i) ≡ some p
        → Step s (record s { pc = update s.pc i (ready c p) })
    cas_win :
        (i : ℕ) {c : ℕ} {p : Proposal}
        → s.pc i ≡ ready c p
        → s.heap.next ≡ c
        → Step s (record {
          heap = record s.heap { next = p.next };
          pc = update s.pc i idle;
          grants = record { owner = i; block = p } ∷ s.grants;
        })
    cas_lose :
        (i : ℕ) {c : ℕ} {p : Proposal}
        → s.pc i ≡ ready c p
        → s.heap.next ≢ c
        → Step s (record s { pc = update s.pc i looping })

  abbrev pub start : BumpAllocator → System
  start b = record { heap = b; pc = λ _. idle; grants = [] }

  pub data Reach (b : BumpAllocator) : System → Type 0 where
    here : Reach b (start b)
    next : {s t : System} → Reach b s → Step s t → Reach b t

  -- From the newest on, each block ends where or before the newer one begins, is aligned and sized
  -- as its owner asked, and lies at or above `lo`.
  abbrev pub Stacked : ℕ → ℕ → List Grant → Type 0
  Stacked lo hi [] = lo ≤ hi
  Stacked lo hi (g ∷ gs) =
      (g.block.next ≤ hi)
      × IsAligned (request g.owner) g.block.aligned
      × (g.block.next ≡ g.block.aligned + (request g.owner).size)
      × Stacked lo g.block.aligned gs

  -- What the locals of a caller are worth.
  abbrev Sound : BumpAllocator → ℕ → Pc → Type 0
  Sound b i idle = Unit
  Sound b i looping = Unit
  Sound b i (loaded c) = (b.heap_start ≤ c) × (c ≤ b.heap_end)
  Sound b i (ready c p) = IsFresh (record b { next = c }) (request i) p

  record Inv (b : BumpAllocator) (s : System) : Type 0 where
    same_start : s.heap.heap_start ≡ b.heap_start
    same_end : s.heap.heap_end ≡ b.heap_end
    within : (b.heap_start ≤ s.heap.next) × (s.heap.next ≤ b.heap_end)
    stacked : Stacked b.next s.heap.next s.grants
    locals : (i : ℕ) → Sound b i (s.pc i)

  update-Sound :
      (b : BumpAllocator) (f : ℕ → Pc) (i : ℕ) (p : Pc)
      → ((j : ℕ) → Sound b j (f j))
      → Sound b i p
      → (j : ℕ) → Sound b j (update f i p j)
  update-Sound b f i p h new j = elim (Bool-cases (i == j)) [
    | inl e ↦ rw e (subst (λ k. Sound b k p) ((==_iff i j).0 e) new)
    | inr e ↦ rw e (h j)
  ]

  Stacked-raise :
      (lo hi hi' : ℕ) (gs : List Grant) → hi ≤ hi' → Stacked lo hi gs → Stacked lo hi' gs
  Stacked-raise lo hi hi' [] h st = omega arith
  Stacked-raise lo hi hi' (g ∷ gs) h st = (omega (arith, st.0), st.1, st.2, st.3)

  module _ (b : BumpAllocator) (v : IsValid b) (ok : (i : ℕ) → IsLayout (request i))
      (fits : (i : ℕ) → b.heap_end + (request i).align ≤ u64_mod) where
    fresh :
        (i c : ℕ) (p : Proposal)
        → (b.heap_start ≤ c) × (c ≤ b.heap_end)
        → propose c b.heap_end (request i) ≡ some p
        → IsFresh (record b { next = c }) (request i) p
    fresh i c p h e =
        propose-some (record b { next = c }) (request i)
          (record { ready = v.ready; started = h.0; ended = h.1 }) (ok i) (fits i) e

    -- The winner's block goes on top of the stack.
    won :
        (s : System) (i : ℕ) (p : Proposal)
        → Inv b s
        → IsFresh (record b { next = s.heap.next }) (request i) p
        → Inv b (record {
          heap = record s.heap { next = p.next };
          pc = update s.pc i idle;
          grants = record { owner = i; block = p } ∷ s.grants;
        })
    won s i p inv f = record {
      same_start = inv.same_start;
      same_end = inv.same_end;
      within = omega (arith, f.above, f.size, f.below, inv.within);
      stacked = (
        omega arith,
        f.aligned,
        f.size,
        Stacked-raise b.next s.heap.next p.aligned s.grants f.above inv.stacked,
      );
      locals = update-Sound b s.pc i idle inv.locals tt;
    }

    moved :
        (s : System) (i : ℕ) (q : Pc)
        → Inv b s
        → Sound b i q
        → Inv b (record s { pc = update s.pc i q })
    moved s i q inv h = record {
      same_start = inv.same_start;
      same_end = inv.same_end;
      within = inv.within;
      stacked = inv.stacked;
      locals = update-Sound b s.pc i q inv.locals h;
    }

    local : (s : System) (i : ℕ) {q : Pc} → Inv b s → s.pc i ≡ q → Sound b i q
    local s i inv e = rw e at (inv.locals i)

    Step-Inv : {s t : System} → Step s t → Inv b s → Inv b t
    Step-Inv {s} (call i e) inv = moved s i looping inv tt
    Step-Inv {s} (load i e) inv = moved s i (loaded s.heap.next) inv inv.within
    Step-Inv {s} (refuse i e f) inv = moved s i idle inv tt
    Step-Inv {s} (prepare i {c} {p} e f) inv =
        moved s i (ready c p) inv (fresh i c p (local s i inv e) (rw inv.same_end at f))
    Step-Inv {s} (cas_win i {c} {p} e f) inv = won s i p inv (rw f (local s i inv e))
    Step-Inv {s} (cas_lose i e f) inv = moved s i looping inv tt

    Reach-Inv : {s : System} → Reach b s → Inv b s
    Reach-Inv here = record {
      same_start = refl;
      same_end = refl;
      within = (v.started, v.ended);
      stacked = omega arith;
      locals = λ _. tt;
    }
    Reach-Inv (next r st) = Step-Inv st (Reach-Inv r)

    -- From a valid heap whose end leaves room below 2^64 for the alignments, which are powers of two:
    -- in every interleaving of the callers the blocks handed out lie between the start of the free
    -- space and the end of the heap, and no two of them overlap.
    pub grants-Stacked :
        {s : System} → Reach b s → Stacked b.next s.heap.next s.grants × (s.heap.next ≤ b.heap_end)
    grants-Stacked r = let inv = Reach-Inv r in (inv.stacked, inv.within.1)
