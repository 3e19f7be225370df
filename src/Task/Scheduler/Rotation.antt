-- ===== src/Task/Scheduler/Rotation.antt =====
-- The order in which kernel/src/task/scheduler.rs runs the tasks, and what it publishes.
use native.Mathlib.Decide.{dec_lt}
use native.Mathlib.Nat.{mod-add-mod, mod-eq_of_lt, mod-eq-sub-mod, mod_self, add-zero}
use aetheros_rust_project.Prelude.{
  ℕ, zero, suc, ◌+◌, ◌-◌, ◌%◌, ◌<◌, ◌≡◌, refl, ap, sym, ◌∙◌, ◌≢◌, inl, inr, Option, none, some,
  false, if◌then◌else◌, arith, get_elem?, get_or-eq_of_some, ◌==◌, Bool-cases,
}
use aetheros_rust_project.Prelude.Words.{u64_max}
use aetheros_rust_project.Task.Process.{Process, running, idle, ready}
use aetheros_rust_project.Task.Scheduler.{
  Scheduler, Statics, next_index, run_next, scheduled_id, tick, current_task_id,
}
use aetheros_rust_project.Task.Scheduler.Turn.{
  IsValid, run_next-IsValid, turned, turned_elem, next_index-lt,
}

-- With two places or more, the next place is another one.
next_ne : (len c : ℕ) → c < len → 1 < len → (c + 1) % len ≢ c
next_ne len c h more = elim (dec_lt (c + 1) len) [
  | yes p ↦ omega (arith, mod-eq_of_lt p)
  | no p ↦ let last : c + 1 ≡ len = omega arith in rw last (omega (arith, mod_self len))
]

module _ {V : Type 0} where
  -- `n` turns.
  abbrev pub turns : ℕ → Scheduler V → Scheduler V
  turns zero s = s
  turns (suc n) s = run_next (turns n s)

  len-run_next : (s : Scheduler V) → (run_next s).len ≡ s.len
  unfolding run_next
  len-run_next s = ground arith

  pub len-turns : (n : ℕ) (s : Scheduler V) → (turns n s).len ≡ s.len
  len-turns zero s = refl
  len-turns (suc n) s = len-run_next (turns n s) ∙ len-turns n s

  current-run_next :
      (s : Scheduler V) {c : ℕ}
      → 0 < s.len
      → s.current ≡ some c
      → (run_next s).current ≡ some ((c + 1) % s.len)
  unfolding run_next
  current-run_next s h e = ground arith

  pub turns-IsValid : (n : ℕ) (s : Scheduler V) → IsValid s → IsValid (turns n s)
  turns-IsValid zero s v = v
  turns-IsValid (suc n) s v = run_next-IsValid (turns n s) (turns-IsValid n s v)

  -- From a current task in the table, the task that is current after `n` turns is the one `n` places further on, round the table.
  pub current-turns :
      (n : ℕ) (s : Scheduler V) {c : ℕ}
      → c < s.len
      → s.current ≡ some c
      → (turns n s).current ≡ some ((c + n) % s.len)
  current-turns zero s {c} h e =
      e ∙ ap some (sym (ap (λ k. k % s.len) (add-zero c) ∙ mod-eq_of_lt h))
  current-turns (suc n) s {c} h e =
      let step =
        current-run_next (turns n s) (rw len-turns (omega arith)) (current-turns n s h e) in
      step ∙ ap some (rw (len-turns, mod-add-mod) (ap (λ k. k % s.len) (omega arith)))

  -- No task starves: from any current task of a well-formed table, every task is current after fewer turns than there are
  -- tasks, and the table is well formed then, so that it is the one that runs.
  pub turns_fair :
      (s : Scheduler V) {c : ℕ} (j : ℕ)
      → IsValid s
      → s.current ≡ some c
      → c < s.len
      → j < s.len
      → (k : ℕ) × (k < s.len) × ((turns k s).current ≡ some j) × IsValid (turns k s)
  turns_fair s {c} j v e hc hj = elim (dec_lt j c) [
    | yes back ↦ (
      j + s.len - c,
      omega arith,
      current-turns (j + s.len - c) s hc e ∙ ap some (round (omega arith)),
      turns-IsValid (j + s.len - c) s v,
    )
    | no ahead ↦ (
      j - c,
      omega arith,
      current-turns (j - c) s hc e
          ∙ ap some
              (let q : c + (j - c) ≡ j = omega arith in ap (λ k. k % s.len) q ∙ mod-eq_of_lt hj),
      turns-IsValid (j - c) s v,
    )
  ]
    where
      round : {m : ℕ} → m ≡ j + s.len → m % s.len ≡ j
      round {m} q = rw q (
          mod-eq-sub-mod {n = j + s.len} {m = s.len} (omega arith)
          ∙ ap (λ k. k % s.len) (let r : j + s.len - s.len ≡ j = omega arith in r)
          ∙ mod-eq_of_lt hj)

  turned_state :
      (c : Option ℕ) (next j : ℕ) (p : Process V)
      → turned c next j p ≡ record p { state = (turned c next j p).state }
  turned_state none next j p = ground arith
  turned_state (some c) next j p = ground arith

  run_next_current :
      (s : Scheduler V) → 0 < s.len → (run_next s).current ≡ some (next_index s.current s.len)
  unfolding run_next
  run_next_current s h = ground arith

  -- A turn changes no task but for its state, and moves no task to another slot.
  pub run_next_keeps :
      (s : Scheduler V) (j : ℕ) {p : Process V}
      → get_elem? s.tasks j ≡ some (some p)
      → (q : Process V) × (get_elem? (run_next s).tasks j ≡ some (some q))
        × (q ≡ record p { state = q.state })
  unfolding run_next
  run_next_keeps s j {p} e = elim (Bool-cases (s.len == 0)) [
    | inl none_yet ↦ rw none_yet (p, e, refl)
    | inr some_task ↦ rw some_task (
      turned s.current (next_index s.current s.len) j p,
      turned_elem s.tasks s.current (next_index s.current s.len) j (some (some p)) e,
      turned_state s.current (next_index s.current s.len) j p,
    )
  ]

  -- With two tasks or more, the task that is taken off the processor is idle if its id is 0, and
  -- ready if not.
  pub run_next_rests :
      (s : Scheduler V) {c : ℕ} {p : Process V}
      → c < s.len
      → 1 < s.len
      → s.current ≡ some c
      → get_elem? s.tasks c ≡ some (some p)
      → get_elem? (run_next s).tasks c
        ≡ some (some (record p { state = if p.id == 0 then idle else ready }))
  unfolding run_next
  run_next_rests s {c} {p} h more e at_c =
      let moves : (c + 1) % s.len ≢ c = next_ne s.len c h more in
      let busy : (s.len == 0) ≡ false = ground arith in
      rw (busy, e)
        (turned_elem s.tasks (some c) ((c + 1) % s.len) c (some (some p)) at_c ∙ ground arith)

  scheduled_id_lem :
      (s : Scheduler V) {i : ℕ} {p : Process V}
      → s.current ≡ some i
      → get_elem? s.tasks i ≡ some (some p)
      → scheduled_id s ≡ p.id
  unfolding scheduled_id
  scheduled_id_lem s {i} {p} c e = ground (arith, get_or-eq_of_some s.tasks i none (some p) e)

  published :
      (s : Scheduler V) {i : ℕ} {p : Process V}
      → s.current ≡ some i
      → get_elem? s.tasks i ≡ some (some p)
      → p.id < u64_max
      → (if scheduled_id s == u64_max then none else some (scheduled_id s)) ≡ some p.id
  published s c e small = ground (arith, scheduled_id_lem s c e)

  -- After a tick of a well-formed table with a task, the published id is that of the current task, which
  -- runs, if no id is `usize::MAX`.
  pub tick_publishes :
      (st : Statics V)
      → IsValid st.scheduler
      → 0 < st.scheduler.len
      → ((i : ℕ) (p : Process V)
          → get_elem? (tick st).scheduler.tasks i ≡ some (some p)
          → p.id < u64_max)
      → (i : ℕ) × (p : Process V) × (get_elem? (tick st).scheduler.tasks i ≡ some (some p))
        × (p.state ≡ running)
        × ((tick st).scheduler.current ≡ some i)
        × (current_task_id (tick st) ≡ some p.id)
  unfolding tick current_task_id
  tick_publishes st v some_task ids =
      let s = run_next st.scheduler in
      let w = run_next-IsValid st.scheduler v in
      let i = next_index st.scheduler.current st.scheduler.len in
      let now = run_next_current st.scheduler some_task in
      let (p, e) =
        w.filled i
          (rw len-run_next (next_index-lt st.scheduler.current st.scheduler.len some_task)) in
      (i, p, e, w.runs i p e now, now, published (run_next st.scheduler) now e (ids i p e))
