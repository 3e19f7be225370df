-- ===== src/Memory/FrameAllocator/Threads/Steps.antt =====
-- How the steps of `allocate_frame` in kernel/src/memory/frame_allocator.rs move a system on.
use native.Mathlib.Decide.{dec_lt}
use aetheros_rust_project.Prelude.{
  ℕ, suc, ◌≤◌, ◌<◌, ◌≡◌, refl, ◌≢◌, inl, inr, List, arith, ◌==◌, Bool-cases, All, All-zip,
}
use aetheros_rust_project.Memory.FrameAllocator.{FrameAllocator}
use aetheros_rust_project.Memory.FrameAllocator.Threads.{
  Pc, idle, looping, picked, loaded, storing, update, System, range_at, IsSeparated, InRange,
}
use aetheros_rust_project.Memory.FrameAllocator.Threads.Invariant.{
  Outside, Closed, Passed, Sound, Inv, update-Sound, update_once, Sound-mono,
}

module _ (a : FrameAllocator) (sep : IsSeparated a) where
  -- An address in one range, its ends included, is outside the others.
  pub other_range :
      (j k f : ℕ)
      → j ≢ k
      → j < a.range_count
      → k < a.range_count
      → (range_at a j).start ≤ f
      → f ≤ (range_at a j).end
      → Outside a k f
  other_range j k f ne hj hk lo hi = elim (dec_lt j k) [
    | yes before ↦ inl (omega (arith, sep.gap j k before hk))
    | no after ↦ inr (omega (arith, sep.gap k j (omega arith) hj))
  ]

  -- An address lies in one range at most.
  pub same_range :
      (j k f : ℕ)
      → j < a.range_count
      → k < a.range_count
      → (range_at a j).start ≤ f
      → f ≤ (range_at a j).end
      → (range_at a k).start ≤ f
      → f ≤ (range_at a k).end
      → j ≡ k
  same_range j k f hj hk lo hi lo' hi' = elim (dec_lt j k) [
    | yes before ↦ absurd (omega (arith, sep.gap j k before hk))
    | no after ↦ elim (dec_lt k j) [
      | yes behind ↦ absurd (omega (arith, sep.gap k j behind hj))
      | no not_behind ↦ omega arith
    ]
  ]

  -- The frames that lie in ranges and outside the range that was closed end before it, or begin
  -- behind it.
  Passed-Outside :
      (k : ℕ) (g : ℕ)
      → k < a.range_count
      → InRange a g
      → Outside a k g
      → Passed a (range_at a k).start k g
  Passed-Outside k g hk w out = elim (dec_lt w.index k) [
    | yes before ↦ inr (omega (arith, w.below, sep.gap w.index k before hk))
    | no after ↦ elim (dec_lt k w.index) [
      | yes behind ↦ inl (omega (arith, w.above, sep.gap k w.index behind w.counted))
      | no not_behind ↦
          let e : w.index ≡ k = omega arith in
          absurd (ground (arith, rw e at w.above, rw e at w.below, out))
    ]
  ]

  -- The winner of `current_range` moves on to a range that is still closed.
  pub advanced :
      (s : System) (i r : ℕ)
      → s.current_range ≡ r
      → suc r < a.range_count
      → Inv a s
      → Inv a (record s { current_range = suc r; pc = update s.pc i (storing (suc r)) })
  advanced s i r at_r more inv = record {
    bounded = omega arith;
    unopened = λ k lt lt'. inv.unopened k (omega arith) lt';
    locals =
        update-Sound a _ _ _ s.pc i (storing (suc r))
          (λ j. Sound-mono a s.current_range _ _ _ (s.pc j) (omega arith) (inv.locals j))
          (omega arith, inv.unopened (suc r) (omega arith) more);
    once = λ j j' k e e'. elim (Bool-cases (i == j)) [
      | inl mine ↦ elim (Bool-cases (i == j')) [
        | inl mine' ↦ ground arith
        | inr other' ↦ absurd (stale j' k (rw other' at e') (ground (arith, rw mine at e)))
      ]
      | inr other ↦ elim (Bool-cases (i == j')) [
        | inl mine' ↦ absurd (stale j k (rw other at e) (ground (arith, rw mine' at e')))
        | inr other' ↦ inv.once j j' k (rw other at e) (rw other' at e')
      ]
    ];
    passed = inv.passed;
    located = inv.located;
    disjoint = inv.disjoint;
  }
    where
      stale : (j k : ℕ) → s.pc j ≡ storing k → suc r ≡ k → ⊥
      stale j k e new = let old = (rw e at (inv.locals j)).0 in omega arith

  pub range_order : (k : ℕ) → k < a.range_count → (range_at a k).start ≤ (range_at a k).end
  range_order k h = omega (arith, sep.nonempty k h)

  -- Another range stays closed when `current_frame` moves within the range `j` or to its start.
  still-Closed :
      (j f c : ℕ) (gs : List ℕ) (k : ℕ)
      → j < a.range_count
      → (range_at a j).start ≤ f
      → f ≤ (range_at a j).end
      → j ≢ k
      → Closed a c gs k
      → Closed a f gs k
  still-Closed j f c gs k hj lo hi ne h = record {
    counted = h.counted;
    frame = other_range j k f ne hj h.counted lo hi;
    grants = h.grants;
  }

  -- The locals of the callers that do not store the range `k` stay sound when its start is stored.
  others-Sound :
      (s : System) (k : ℕ) (p : Pc)
      → k < a.range_count
      → p ≢ storing k
      → Sound a s.current_range s.current_frame s.grants p
      → Sound a s.current_range (range_at a k).start s.grants p
  others-Sound s k idle hk ne h = h
  others-Sound s k looping hk ne h = h
  others-Sound s k (picked r) hk ne h = h
  others-Sound s k (loaded r c) hk ne h = h
  others-Sound s k (storing m) hk ne h = (
    h.0,
    still-Closed k (range_at a k).start s.current_frame s.grants m hk (omega arith)
        (range_order k hk) (λ e. ne (rw e refl)) h.1,
  )

  -- The store of a range's start opens the range.
  stored-Sound :
      (s : System) (i k : ℕ)
      → k < a.range_count
      → s.pc i ≡ storing k
      → Inv a s
      → (j : ℕ) → Sound a s.current_range (range_at a k).start s.grants (update s.pc i looping j)
  stored-Sound s i k hk at_store inv j = elim (Bool-cases (i == j)) [
    | inl mine ↦ rw mine tt
    | inr other ↦ rw other (
        others-Sound s k (s.pc j) hk
          (λ e. let same = inv.once i j k at_store e in absurd (ground (arith, same)))
          (inv.locals j))
  ]

  -- At the start of a range that was closed, only frames of other ranges have been handed out.
  Passed-start :
      (s : System) (k m : ℕ)
      → k < a.range_count
      → m < a.range_count
      → (range_at a m).start ≤ (range_at a k).start
      → (range_at a k).start ≤ (range_at a m).end
      → Closed a s.current_frame s.grants k
      → Inv a s
      → All (Passed a (range_at a k).start m) s.grants
  Passed-start s k m hk hm lo hi c inv =
      let same : k ≡ m =
        same_range k m (range_at a k).start hk hm (omega arith) (range_order k hk) lo hi in
      rw (← same) (All-zip (λ g w out. Passed-Outside k g hk w out) s.grants inv.located c.grants)

  pub stored :
      (s : System) (i k : ℕ)
      → s.pc i ≡ storing k
      → Inv a s
      → Inv a (record s { current_frame = (range_at a k).start; pc = update s.pc i looping })
  stored s i k at_store inv =
      let mine = rw at_store at (inv.locals i) in
      let hk = mine.1.counted in
      record {
        bounded = inv.bounded;
        unopened = λ m lt lt'.
            still-Closed k (range_at a k).start s.current_frame s.grants m hk (omega arith)
              (range_order k hk) (λ e. omega (arith, mine.0)) (inv.unopened m lt lt');
        locals = stored-Sound s i k hk at_store inv;
        once = update_once a s.pc i looping (λ m e. cc) inv.once;
        passed = λ m hm lo hi. Passed-start s k m hk hm lo hi mine.1 inv;
        located = inv.located;
        disjoint = inv.disjoint;
      }
