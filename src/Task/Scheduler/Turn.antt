-- ===== src/Task/Scheduler/Turn.antt =====
-- One turn of the scheduler of kernel/src/task/scheduler.rs: what `run_next` does to the table.
use mathlib.Core.Option
use native.Mathlib.Decide.{ℕ_discrete}
use native.Mathlib.Nat.{mod-lt}
use aetheros_rust_project.Prelude.{
  ℕ, zero, suc, ◌+◌, ◌≤◌, ◌<◌, ◌≡◌, refl, sym, ap, ◌∙◌, ◌≢◌, inl, inr, Option, none, some, List, [],
  ◌∷◌, arith, length, get_elem?, set, replicate, length-set, get_elem?-set_self, get_elem?-set_ne,
  ltb, ◌==◌, if◌then◌else◌, Bool-cases, Option-cases,
}
use aetheros_rust_project.Task.Process.{Process, running}
use aetheros_rust_project.Task.Scheduler.{
  Scheduler, max_tasks, rest, run, change, rest_current, next_index, run_next, add, new,
}

-- The index of the current task is that of a taken slot.
abbrev pub IsIndex : Option ℕ → ℕ → Type 0
IsIndex none len = Unit
IsIndex (some current) len = current < len

pub next_index-lt : (c : Option ℕ) (len : ℕ) → 0 < len → next_index c len < len
next_index-lt none len h = h
next_index-lt (some c) len h = mod-lt (c + 1) h

IsIndex-more : (c : Option ℕ) (len : ℕ) → IsIndex c len → IsIndex c (len + 1)
IsIndex-more none len h = tt
IsIndex-more (some c) len h = omega arith

pub lt_of_IsIndex : (c : Option ℕ) (len i : ℕ) → IsIndex c len → c ≡ some i → i < len
lt_of_IsIndex none len i h e = cc
lt_of_IsIndex (some c) len i h e = ground arith

abbrev pub Tasks : Type 0 → Type 0
Tasks V = List (Option (Process V))

module _ {V : Type 0} where
  -- The slots below `len` hold tasks, and the current one is the only one that runs.
  pub record IsValid (s : Scheduler V) : Type 0 where
    pub sized : length s.tasks ≡ max_tasks
    pub bounded : s.len ≤ max_tasks
    pub filled : (i : ℕ) → i < s.len → (p : Process V) × (get_elem? s.tasks i ≡ some (some p))
    pub pointed : IsIndex s.current s.len
    pub runs :
        (i : ℕ) (p : Process V)
        → get_elem? s.tasks i ≡ some (some p)
        → s.current ≡ some i
        → p.state ≡ running
    pub rests :
        (i : ℕ) (p : Process V)
        → get_elem? s.tasks i ≡ some (some p)
        → s.current ≢ some i
        → p.state ≢ running

  get_elem?-change :
      (f : Process V → Process V) (ts : Tasks V) (i j : ℕ)
      → get_elem? (change f ts i) j
        ≡ (if i == j then Option.map (Option.map f) (get_elem? ts j) else get_elem? ts j)
  get_elem?-change f [] i j = ground arith
  get_elem?-change f (t ∷ ts) zero zero = refl
  get_elem?-change f (t ∷ ts) zero (suc j) = ground arith
  get_elem?-change f (t ∷ ts) (suc i) zero = ground arith
  get_elem?-change f (t ∷ ts) (suc i) (suc j) = get_elem?-change f ts i j ∙ ground arith

  length-rest_current : (ts : Tasks V) (c : Option ℕ) → length (rest_current ts c) ≡ length ts
  length-rest_current ts none = refl
  length-rest_current ts (some c) = length-set ts c _

  -- What a turn makes of the task in slot `j`.
  abbrev pub turned : Option ℕ → ℕ → ℕ → Process V → Process V
  turned current next j p =
      if next == j then run p else elim current [ none ↦ p | some c ↦ if c == j then rest p else p ]

  pub turned_elem :
      (ts : Tasks V) (c : Option ℕ) (next j : ℕ) (o : Option (Option (Process V)))
      → get_elem? ts j ≡ o
      → get_elem? (change run (rest_current ts c) next) j
        ≡ Option.map (Option.map (turned c next j)) o
  turned_elem ts none next j none e = ground (arith, get_elem?-change run ts next j)
  turned_elem ts none next j (some none) e = ground (arith, get_elem?-change run ts next j)
  turned_elem ts none next j (some (some p)) e = ground (arith, get_elem?-change run ts next j)
  turned_elem ts (some c) next j none e =
      ground (arith, get_elem?-change run (change rest ts c) next j, get_elem?-change rest ts c j)
  turned_elem ts (some c) next j (some none) e =
      ground (arith, get_elem?-change run (change rest ts c) next j, get_elem?-change rest ts c j)
  turned_elem ts (some c) next j (some (some p)) e =
      ground (arith, get_elem?-change run (change rest ts c) next j, get_elem?-change rest ts c j)

  length-run_next :
      (ts : Tasks V) (c : Option ℕ) (n : ℕ) → length (change run (rest_current ts c) n) ≡ length ts
  length-run_next ts c n = length-set (rest_current ts c) n _ ∙ length-rest_current ts c

  -- Back from a slot of the new table to the old one.
  turned_slot :
      (ts : Tasks V) (c : Option ℕ) (next j : ℕ) (q : Process V)
      → get_elem? (change run (rest_current ts c) next) j ≡ some (some q)
      → (p : Process V) × (get_elem? ts j ≡ some (some p)) × (q ≡ turned c next j p)
  turned_slot ts c next j q e = elim (Option-cases (get_elem? ts j)) [
    | inl gone ↦ cc (turned_elem ts c next j none gone)
    | inr (none, found) ↦ cc (turned_elem ts c next j (some none) found)
    | inr (some p, found) ↦ (p, found, cc (turned_elem ts c next j (some (some p)) found))
  ]

  still_rests :
      (c : Option ℕ) (next i : ℕ) (p : Process V)
      → (c ≢ some i → p.state ≢ running)
      → next ≢ i
      → (turned c next i p).state ≢ running
  still_rests none next i p old ne = ground (arith, old (λ e. cc))
  still_rests (some c) next i p old ne = elim (Bool-cases (c == i)) [
    | inl e ↦ ground arith
    | inr e ↦ ground (arith, old (λ q. ground arith))
  ]

  -- A turn of a well-formed table keeps it well formed: afterwards the new current task is the only one that runs.
  pub run_next-IsValid : (s : Scheduler V) → IsValid s → IsValid (run_next s)
  unfolding run_next
  run_next-IsValid s v = elim (Bool-cases (s.len == 0)) [
    | inl none_yet ↦ rw none_yet v
    | inr some_task ↦ rw some_task (record {
      sized = length-run_next s.tasks s.current (next_index s.current s.len) ∙ v.sized;
      bounded = v.bounded;
      filled = λ i lt.
          let (p, e) = v.filled i lt in
          (_, turned_elem s.tasks s.current (next_index s.current s.len) i (some (some p)) e);
      pointed = next_index-lt s.current s.len (ground arith);
      runs = λ i p e c.
          let (q, old, same) = turned_slot s.tasks s.current (next_index s.current s.len) i p e in
          rw same (ground arith);
      rests = λ i p e c.
          let (q, old, same) = turned_slot s.tasks s.current (next_index s.current s.len) i p e in
          rw same (
            still_rests s.current (next_index s.current s.len) i q (v.rests i q old)
              (λ n. c (ap some n)));
    })
  ]

  -- Adding a process that does not run keeps the table well formed, also when the table is full.
  pub add-IsValid :
      (s : Scheduler V) (p : Process V) → IsValid s → p.state ≢ running → IsValid (add s p)
  unfolding add
  add-IsValid s p v still = elim (Bool-cases (ltb s.len max_tasks)) [
    | inr full ↦ rw full v
    | inl room ↦ rw room (record {
      sized = length-set s.tasks s.len (some p) ∙ v.sized;
      bounded = ground arith;
      filled = λ i lt. elim (ℕ_discrete i s.len) [
        | yes e ↦ (p, rw e (get_elem?-set_self s.tasks s.len (some p) (ground (arith, v.sized))))
        | no ne ↦
            let (q, old) = v.filled i (omega arith) in
            (q, get_elem?-set_ne s.tasks s.len i (some p) (λ x. ne (sym x)) ∙ old)
      ];
      pointed = IsIndex-more s.current s.len v.pointed;
      runs = λ i q e c.
          let lt = lt_of_IsIndex s.current s.len i v.pointed c in
          v.runs i q (sym (get_elem?-set_ne s.tasks s.len i (some p) (omega arith)) ∙ e) c;
      rests = λ i q e c. elim (ℕ_discrete i s.len) [
        | yes new ↦
            let same : get_elem? (set s.tasks s.len (some p)) i ≡ some (some p) =
              rw new (get_elem?-set_self s.tasks s.len (some p) (ground (arith, v.sized))) in
            let eq : p ≡ q = cc in rw (← eq) still
        | no ne ↦
            v.rests i q (sym (get_elem?-set_ne s.tasks s.len i (some p) (λ x. ne (sym x))) ∙ e) c
      ];
    })
  ]

pub empty_slots :
    {V : Type 0} (n i : ℕ) {p : Process V}
    → get_elem? {A = Option (Process V)} (replicate n none) i ≡ some (some p)
    → ⊥
empty_slots zero i e = cc
empty_slots (suc n) zero e = cc
empty_slots (suc n) (suc i) e = empty_slots n i e

-- The table that `Scheduler::new` gives is well formed.
pub new-IsValid : (V : Type 0) → IsValid (new V)
new-IsValid V = record {
  sized = refl;
  bounded = omega arith;
  filled = λ i h. absurd (omega arith);
  pointed = tt;
  runs = λ i p e c. cc;
  rests = λ i p e c. absurd (empty_slots max_tasks i e);
}
