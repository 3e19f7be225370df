-- ===== src/Kernel/Locks/Waits.antt =====
-- When a handler gets its locks.
use aetheros_rust_project.Prelude.{
  ◌||◌, ◌&&◌, ◌%◌, ◌==◌, ℕ, ◌≡◌, refl, ◌∙◌, sym, ap, ap₂, ◌↔◌, Bool, true, false, List, [], ◌∷◌,
  none, some, arith, All, Bool-cases, inl, inr,
}
use aetheros_rust_project.Prelude.Words.{add64}
use aetheros_rust_project.Kernel.Locks.{
  Lock, scheduler, serial, pics, timer_locks, same_lock, Action, acquire, release, sections, System,
  set_held, Step, main_acquire, main_release, interrupt, handler_acquire, handler_release,
  handler_return, Reach, here, next,
}

abbrev pub AreFree : System → List Lock → Type 0
AreFree s ls = All (λ l. s.held l ≡ false) ls

same_lock_refl : (l : Lock) → same_lock l l ≡ true
same_lock_refl scheduler = refl
same_lock_refl serial = refl
same_lock_refl pics = refl

same_lock-eq : (l k : Lock) → same_lock l k ≡ true → l ≡ k
same_lock-eq scheduler scheduler h = refl
same_lock-eq scheduler serial h = cc
same_lock-eq scheduler pics h = cc
same_lock-eq serial scheduler h = cc
same_lock-eq serial serial h = refl
same_lock-eq serial pics h = cc
same_lock-eq pics scheduler h = cc
same_lock-eq pics serial h = cc
same_lock-eq pics pics h = refl

-- A lock that was free, taken and dropped: all locks are as they were.
dropped :
    (held : Lock → Bool) (l k : Lock)
    → held l ≡ false
    → set_held (set_held held l true) l false k ≡ held k
dropped held l k free = elim (Bool-cases (same_lock l k)) [
  | inl same ↦
      let e : l ≡ k = same_lock-eq l k same in
      let f : held k ≡ false = rw e at free in rw (same, f) refl
  | inr other ↦ rw other refl
]

module _ (arrives : List Lock) where
  -- The handler comes to its end.
  abbrev pub Returns : System → Type 0
  Returns s = (t : System) × Reach arrives s t × (t.handler ≡ none)

  pub free-Returns :
      (ls : List Lock) (s : System) → s.handler ≡ some (sections ls) → AreFree s ls → Returns s
  free-Returns [] s at free = (record s { handler = none }, next (handler_return at) here, refl)
  free-Returns (l ∷ ls) s at (free, frees) =
      let s₁ = record s {
        held = set_held s.held l true;
        handler = some (release l ∷ sections ls);
      } in
      let s₂ = record s₁ { held = set_held s₁.held l false; handler = some (sections ls) } in
      let (t, reach, returned) = free-Returns ls s₂ refl (kept ls frees) in
      (t, next (handler_acquire at free) (next (handler_release refl) reach), returned)
    where
      kept :
          (ks : List Lock)
          → All (λ k. s.held k ≡ false) ks
          → All (λ k. set_held (set_held s.held l true) l false k ≡ false) ks
      kept [] h = tt
      kept (k ∷ ks) (h, hs) = (dropped s.held l k free ∙ h, kept ks hs)

  -- While the handler runs, nothing else takes a step.
  acquire-Step :
      (s u : System) (l : Lock) (rest : List Action)
      → s.handler ≡ some (acquire l ∷ rest)
      → Step arrives s u
      → (s.held l ≡ false) × (u ≡ record s { held = set_held s.held l true; handler = some rest })
  acquire-Step s u l rest at (main_acquire off m free) = absurd (let q = at in let r = off in cc)
  acquire-Step s u l rest at (main_release off m) = absurd (let q = at in let r = off in cc)
  acquire-Step s u l rest at (interrupt off) = absurd (let q = at in let r = off in cc)
  acquire-Step s u l rest at (handler_acquire {l = l'} {rest = rest'} on free) =
      let same : l' ≡ l = cc in
      let rest_same : rest' ≡ rest = cc in
      (
        rw (← same) free,
        ap₂ (λ k r. record s { held = set_held s.held k true; handler = some r }) same rest_same,
      )
  acquire-Step s u l rest at (handler_release on) = absurd (let q = at in let r = on in cc)
  acquire-Step s u l rest at (handler_return on) = absurd (let q = at in let r = on in cc)

  release-Step :
      (s u : System) (l : Lock) (rest : List Action)
      → s.handler ≡ some (release l ∷ rest)
      → Step arrives s u
      → u ≡ record s { held = set_held s.held l false; handler = some rest }
  release-Step s u l rest at (main_acquire off m free) = absurd (let q = at in let r = off in cc)
  release-Step s u l rest at (main_release off m) = absurd (let q = at in let r = off in cc)
  release-Step s u l rest at (interrupt off) = absurd (let q = at in let r = off in cc)
  release-Step s u l rest at (handler_acquire on free) = absurd (let q = at in let r = on in cc)
  release-Step s u l rest at (handler_release {l = l'} {rest = rest'} on) =
      let same : l' ≡ l = cc in
      let rest_same : rest' ≡ rest = cc in
      ap₂ (λ k r. record s { held = set_held s.held k false; handler = some r }) same rest_same
  release-Step s u l rest at (handler_return on) = absurd (let q = at in let r = on in cc)

  -- The two steps of a lock that is taken and dropped.
  section_steps :
      (s t : System) (l : Lock) (rest : List Action)
      → s.handler ≡ some (acquire l ∷ release l ∷ rest)
      → Reach arrives s t
      → t.handler ≡ none
      → (s.held l ≡ false)
        × (u : System) × (u.handler ≡ some rest)
        × (u.held ≡ set_held (set_held s.held l true) l false)
        × Reach arrives u t
  section_steps s t l rest at here off = absurd (let q = at in cc)
  section_steps s t l rest at (next {u = u} first more) off =
      let (free, now) = acquire-Step s u l (release l ∷ rest) at first in
      let on : u.handler ≡ some (release l ∷ rest) = ap (λ v. v.handler) now in
      let (v, reach, at', held') = second u on more in
      (free, v, at', held' ∙ ap (λ w. set_held w.held l false) now, reach)
    where
      second :
          (u : System)
          → u.handler ≡ some (release l ∷ rest)
          → Reach arrives u t
          → (v : System) × Reach arrives v t
            × (v.handler ≡ some rest)
            × (v.held ≡ set_held u.held l false)
      second u on here = absurd (let q = on in let r = off in cc)
      second u on (next {u = v} step more) =
          let now = release-Step u v l rest on step in
          (v, more, ap (λ w. w.handler) now, ap (λ w. w.held) now)

  pub Returns-free :
      (ls : List Lock) (s t : System)
      → s.handler ≡ some (sections ls)
      → Reach arrives s t
      → t.handler ≡ none
      → AreFree s ls
  Returns-free [] s t at reach off = tt
  Returns-free (l ∷ ls) s t at reach off =
      let (free, u, on, held, more) = section_steps s t l (sections ls) at reach off in
      (free, kept u ls free held (Returns-free ls u t on more off))
    where
      kept :
          (u : System) (ks : List Lock)
          → s.held l ≡ false
          → u.held ≡ set_held (set_held s.held l true) l false
          → AreFree u ks
          → AreFree s ks
      kept u [] free held h = tt
      kept u (k ∷ ks) free held (h, hs) =
          (sym (dropped s.held l k free) ∙ sym (ap (λ f. f k) held) ∙ h, kept u ks free held hs)

-- One of the locks that the handler waits for is held.
abbrev pub is_blocked : ℕ → Bool → System → Bool
is_blocked ticks initialized s =
    s.held scheduler
    || ((add64 ticks 1 % 100 == 0) && s.held serial)
    || (initialized && s.held pics)

free_iff :
    (ticks : ℕ) (initialized : Bool) (s : System)
    → AreFree s (timer_locks ticks initialized) ↔ (is_blocked ticks initialized s ≡ false)
unfolding timer_locks
free_iff ticks true s = elim (Bool-cases (add64 ticks 1 % 100 == 0)) [
  | inl hundredth ↦ rw hundredth (
    λ h. ground (arith, h.0, h.1.0, h.1.1.0),
    λ h. (ground arith, (ground arith, (ground arith, tt))),
  )
  | inr other ↦ rw other (λ h. ground (arith, h.0, h.1.0), λ h. (ground arith, (ground arith, tt)))
]
free_iff ticks false s = elim (Bool-cases (add64 ticks 1 % 100 == 0)) [
  | inl hundredth ↦
      rw hundredth (λ h. ground (arith, h.0, h.1.0), λ h. (ground arith, (ground arith, tt)))
  | inr other ↦ rw other (λ h. ground (arith, h.0), λ h. (ground arith, tt))
]

-- The handler of a timer interrupt that arrives in any state can come to its end, by some steps, if and only if
-- the code that it interrupts holds neither the scheduler's lock nor, when the tick that it counts, modulo 2^64, is a multiple of 100, the serial port's,
-- nor, once `INITIALIZED` is set, the controllers'.
pub timer-Returns_iff :
    (ticks : ℕ) (initialized : Bool) (s : System)
    → Returns
        (timer_locks ticks initialized)
        (record s { handler = some (sections (timer_locks ticks initialized)) })
      ↔ (is_blocked ticks initialized s ≡ false)
timer-Returns_iff ticks initialized s =
    let ls = timer_locks ticks initialized in
    let entered = record s { handler = some (sections ls) } in
    let free = free_iff ticks initialized s in
    (
      λ r. free.0 (Returns-free ls ls entered r.0 refl r.1 r.2),
      λ h. free-Returns ls ls entered refl (free.1 h),
    )
