-- ===== src/Memory/FrameAllocator/Threads/Invariant.antt =====
-- What holds between the steps of the callers of `allocate_frame` in
-- kernel/src/memory/frame_allocator.rs: a range is closed until its start has been stored.
use aetheros_rust_project.Prelude.{
  ℕ, ◌+◌, ◌≤◌, ◌<◌, ◌≡◌, ◌≢◌, ◌⊎◌, inl, inr, List, arith, ◌==◌, Bool-cases, All,
}
use aetheros_rust_project.Memory.FrameAllocator.Align.{frame_size}
use aetheros_rust_project.Memory.FrameAllocator.{FrameAllocator}
use aetheros_rust_project.Memory.FrameAllocator.Threads.{
  Pc, idle, looping, picked, loaded, storing, update, System, range_at, InRange, Disjoint,
}

module _ (a : FrameAllocator) where
  -- The address is in no range `k`, and at neither end of it.
  abbrev pub Outside : ℕ → ℕ → Type 0
  Outside k c = (c < (range_at a k).start) ⊎ ((range_at a k).end < c)

  -- No frame of the range has been handed out, and `current_frame` is not in it.
  pub record Closed (c : ℕ) (gs : List ℕ) (k : ℕ) : Type 0 where
    pub counted : k < a.range_count
    pub frame : Outside k c
    pub grants : All (Outside k) gs

  -- A frame of a range that holds `c` ends before `c`.
  abbrev pub Passed : ℕ → ℕ → ℕ → Type 0
  Passed c k g = ((range_at a k).end < g) ⊎ (g + frame_size ≤ c)

  -- What the locals of a caller are worth.
  abbrev pub Sound : ℕ → ℕ → List ℕ → Pc → Type 0
  Sound r c gs idle = Unit
  Sound r c gs looping = Unit
  Sound r c gs (picked i) = i < a.range_count
  Sound r c gs (loaded i d) = i < a.range_count
  Sound r c gs (storing k) = (k ≤ r) × Closed c gs k

  pub record Inv (s : System) : Type 0 where
    pub bounded : s.current_range ≤ a.range_count
    pub unopened :
        (k : ℕ) → s.current_range < k → k < a.range_count → Closed s.current_frame s.grants k
    pub locals : (i : ℕ) → Sound s.current_range s.current_frame s.grants (s.pc i)
    pub once : (i j k : ℕ) → s.pc i ≡ storing k → s.pc j ≡ storing k → i ≡ j
    pub passed :
        (k : ℕ)
        → k < a.range_count
        → (range_at a k).start ≤ s.current_frame
        → s.current_frame ≤ (range_at a k).end
        → All (Passed s.current_frame k) s.grants
    pub located : All (InRange a) s.grants
    pub disjoint : Disjoint a s.grants

  pub update-Sound :
      (r c : ℕ) (gs : List ℕ) (f : ℕ → Pc) (i : ℕ) (p : Pc)
      → ((j : ℕ) → Sound r c gs (f j))
      → Sound r c gs p
      → (j : ℕ) → Sound r c gs (update f i p j)
  update-Sound r c gs f i p h new j = elim (Bool-cases (i == j)) [
    | inl e ↦ rw e new
    | inr e ↦ rw e (h j)
  ]

  -- After one caller's move to a point that is no store, the callers that store are the others.
  pub update_once :
      (f : ℕ → Pc) (i : ℕ) (p : Pc)
      → ((k : ℕ) → p ≢ storing k)
      → ((i j k : ℕ) → f i ≡ storing k → f j ≡ storing k → i ≡ j)
      → (j j' k : ℕ) → update f i p j ≡ storing k
      → update f i p j' ≡ storing k
      → j ≡ j'
  update_once f i p quiet h j j' k e e' = elim (Bool-cases (i == j)) [
    | inl here ↦ absurd (quiet k (rw here at e))
    | inr other ↦ elim (Bool-cases (i == j')) [
      | inl here ↦ absurd (quiet k (rw here at e'))
      | inr other' ↦ h j j' k (rw other at e) (rw other' at e')
    ]
  ]

  -- A step that changes nothing that is shared.
  pub moved :
      (s : System) (i : ℕ) (p : Pc)
      → ((k : ℕ) → p ≢ storing k)
      → Sound s.current_range s.current_frame s.grants p
      → Inv s
      → Inv (record s { pc = update s.pc i p })
  moved s i p quiet h inv = record {
    bounded = inv.bounded;
    unopened = inv.unopened;
    locals = update-Sound _ _ _ s.pc i p inv.locals h;
    once = update_once s.pc i p quiet inv.once;
    passed = inv.passed;
    located = inv.located;
    disjoint = inv.disjoint;
  }

  pub Sound-mono : (r r' c : ℕ) (gs : List ℕ) (p : Pc) → r ≤ r' → Sound r c gs p → Sound r' c gs p
  Sound-mono r r' c gs idle le h = h
  Sound-mono r r' c gs looping le h = h
  Sound-mono r r' c gs (picked i) le h = h
  Sound-mono r r' c gs (loaded i d) le h = h
  Sound-mono r r' c gs (storing k) le h = (omega (arith, h.0), h.1)

  pub closed :
      (s : System) (i : ℕ)
      → Inv s
      → Inv (record s { current_range = a.range_count; pc = update s.pc i idle })
  closed s i inv = record {
    bounded = omega arith;
    unopened = λ k lt lt'. absurd (omega arith);
    locals =
        update-Sound _ _ _ s.pc i idle
          (λ j. Sound-mono s.current_range _ _ _ (s.pc j) inv.bounded (inv.locals j)) tt;
    once = update_once s.pc i idle (λ k e. cc) inv.once;
    passed = inv.passed;
    located = inv.located;
    disjoint = inv.disjoint;
  }
