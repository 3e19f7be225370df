-- ===== src/Memory/FrameAllocator/Threads/Safety.antt =====
-- No frame is handed out twice, whatever the interleaving of the callers of `allocate_frame` in
-- kernel/src/memory/frame_allocator.rs, if gaps separate the ranges.
use native.Mathlib.Decide.{dec_lt}
use aetheros_rust_project.Prelude.{
  ℕ, ◌+◌, ◌≤◌, ◌<◌, ◌≡◌, ◌≢◌, ◌⊎◌, inl, inr, false, ◌∷◌, arith, All, All-map, All-zip,
}
use aetheros_rust_project.Prelude.Words.{add64}
use aetheros_rust_project.Memory.FrameAllocator.Align.{frame_size}
use aetheros_rust_project.Memory.FrameAllocator.{FrameAllocator}
use aetheros_rust_project.Memory.FrameAllocator.Threads.{
  Pc, idle, looping, picked, loaded, storing, update, System, is_used_up, range_at, Step, start,
  Reach, here, next, call, exhausted, pick, load, close, advance, skip, store, grant, retry,
  IsSeparated, InRange, Disjoint,
}
use aetheros_rust_project.Memory.FrameAllocator.Threads.Invariant.{
  Closed, Passed, Sound, Inv, update-Sound, update_once, moved, closed,
}
use aetheros_rust_project.Memory.FrameAllocator.Threads.Steps.{
  other_range, same_range, advanced, range_order, stored,
}

module _ (a : FrameAllocator) (sep : IsSeparated a) where
  -- The frame at `current_frame` lies apart from those that were handed out.
  granted_apart :
      (r c g : ℕ)
      → r < a.range_count
      → (range_at a r).start ≤ c
      → c + frame_size ≤ (range_at a r).end
      → InRange a g
      → Passed a c r g
      → (c + frame_size ≤ g) ⊎ (g + frame_size ≤ c)
  granted_apart r c g hr lo hi w past = elim (dec_lt w.index r) [
    | yes before ↦ inr (omega (arith, w.below, sep.gap w.index r before hr))
    | no after ↦ elim (dec_lt r w.index) [
      | yes behind ↦ inl (omega (arith, w.above, sep.gap r w.index behind w.counted))
      | no not_behind ↦ let e : w.index ≡ r = omega arith in ground (arith, rw e at w.below, past)
    ]
  ]

  granted-Closed :
      (s : System) (r c k : ℕ)
      → r < a.range_count
      → (range_at a r).start ≤ c
      → c + frame_size ≤ (range_at a r).end
      → s.current_frame ≡ c
      → Closed a s.current_frame s.grants k
      → Closed a (c + frame_size) (c ∷ s.grants) k
  granted-Closed s r c k hr lo hi at_c h =
      let ne : r ≢ k = λ e. let out = h.frame in ground (arith, rw (← e) at out) in
      record {
        counted = h.counted;
        frame = other_range a sep r k (c + frame_size) ne hr h.counted (omega arith) (omega arith);
        grants = (rw at_c at h.frame, h.grants);
      }

  granted-Sound :
      (s : System) (r c : ℕ) (p : Pc)
      → r < a.range_count
      → (range_at a r).start ≤ c
      → c + frame_size ≤ (range_at a r).end
      → s.current_frame ≡ c
      → Sound a s.current_range s.current_frame s.grants p
      → Sound a s.current_range (c + frame_size) (c ∷ s.grants) p
  granted-Sound s r c idle hr lo hi at_c h = h
  granted-Sound s r c looping hr lo hi at_c h = h
  granted-Sound s r c (picked m) hr lo hi at_c h = h
  granted-Sound s r c (loaded m d) hr lo hi at_c h = h
  granted-Sound s r c (storing k) hr lo hi at_c h = (h.0, granted-Closed s r c k hr lo hi at_c h.1)

  granted :
      (s : System) (i r c : ℕ)
      → r < a.range_count
      → (range_at a r).start ≤ c
      → c + frame_size ≤ (range_at a r).end
      → s.current_frame ≡ c
      → Inv a s
      → Inv a (record s {
        current_frame = c + frame_size;
        pc = update s.pc i idle;
        grants = c ∷ s.grants;
      })
  granted s i r c hr lo hi at_c inv =
      let past : All (Passed a c r) s.grants =
        rw at_c at (inv.passed r hr (omega (arith, at_c)) (omega (arith, at_c))) in
      record {
        bounded = inv.bounded;
        unopened = λ k lt lt'. granted-Closed s r c k hr lo hi at_c (inv.unopened k lt lt');
        locals =
            update-Sound a _ _ _ s.pc i idle
              (λ j. granted-Sound s r c (s.pc j) hr lo hi at_c (inv.locals j)) tt;
        once = update_once a s.pc i idle (λ k e. cc) inv.once;
        passed = λ k hk lo' hi'.
            let same : r ≡ k =
              same_range a sep r k (c + frame_size) hr hk (omega arith) hi lo' hi' in
            rw (← same) (inr (omega arith), All-map (λ g p. ground arith) s.grants past);
        located = (record { index = r; counted = hr; above = lo; below = hi }, inv.located);
        disjoint = (
          All-zip (λ g w p. granted_apart r c g hr lo hi w p) s.grants inv.located past,
          inv.disjoint,
        );
      }

  -- What the failed tests say of the frame.
  not_used_up :
      (r c : ℕ)
      → r < a.range_count
      → is_used_up (range_at a r) c ≡ false
      → ((range_at a r).start ≤ c)
        × (c + frame_size ≤ (range_at a r).end)
        × (add64 c frame_size ≡ c + frame_size)
  not_used_up r c hr e = ground (arith, sep.fits r hr)

  start-Inv : 0 < a.range_count → Inv a (start a)
  start-Inv some_range = record {
    bounded = omega (arith, sep.first_range);
    unopened = λ k lt lt'. record {
      counted = lt';
      frame = rw sep.first_frame (
          other_range a sep 0 k (range_at a 0).start (omega (arith, sep.first_range)) some_range lt'
            (omega arith) (range_order a sep 0 some_range));
      grants = tt;
    };
    locals = λ i. tt;
    once = λ i j k e. cc;
    passed = λ k hk lo hi. tt;
    located = tt;
    disjoint = tt;
  }

  Step-Inv : {s t : System} → Step a s t → Inv a s → Inv a t
  Step-Inv {s} (call i e) inv = moved a s i looping (λ k e'. cc) tt inv
  Step-Inv {s} (exhausted i e h) inv = moved a s i idle (λ k e'. cc) tt inv
  Step-Inv {s} (pick i e h) inv = moved a s i (picked s.current_range) (λ k e'. cc) h inv
  Step-Inv {s} (load i {r} e) inv =
      moved a s i (loaded r s.current_frame) (λ k e'. cc) (rw e at (inv.locals i)) inv
  Step-Inv {s} (close i e u h) inv = closed a s i inv
  Step-Inv {s} (advance i {r} e u h h') inv = advanced a sep s i r h' h inv
  Step-Inv {s} (skip i e u h h') inv = moved a s i looping (λ k e'. cc) tt inv
  Step-Inv {s} (store i {k} e) inv = stored a sep s i k e inv
  Step-Inv {s} (grant i {r} {c} e u h) inv =
      let hr : r < a.range_count = rw e at (inv.locals i) in
      let (lo, hi, sum) = not_used_up r c hr u in rw sum (granted s i r c hr lo hi h inv)
  Step-Inv {s} (retry i e u h) inv = moved a s i looping (λ k e'. cc) tt inv

  Reach-Inv : 0 < a.range_count → {s : System} → Reach a s → Inv a s
  Reach-Inv some_range here = start-Inv some_range
  Reach-Inv some_range (next r st) = Step-Inv st (Reach-Inv some_range r)

  -- From an allocator that has handed out nothing and whose ranges, one at least, are separated by
  -- gaps and end a frame below the end of the address space: in every interleaving of the callers
  -- the frames handed out lie whole in its ranges, and no two of them overlap.
  pub grants-Disjoint :
      0 < a.range_count → {s : System} → Reach a s → All (InRange a) s.grants × Disjoint a s.grants
  grants-Disjoint some_range r = let inv = Reach-Inv some_range r in (inv.located, inv.disjoint)
