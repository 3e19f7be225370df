-- ===== src/Task/Scheduler/Tests.antt =====
-- The scheduler that `initialize` sets up, and its turns. Addresses are plain numbers here.

use aetheros_rust_project.Prelude.{ℕ, zero, suc, ◌<◌, ◌≡◌, refl, some, arith, get_elem?}
use aetheros_rust_project.Prelude.Text.{codes}
use aetheros_rust_project.Prelude.Words.{u64_max}
use aetheros_rust_project.Task.Process
use aetheros_rust_project.Task.Process.{Process, ready, running, idle}
use aetheros_rust_project.Task.Scheduler.{
  Scheduler, Statics, new, initial_statics, add, run_next, initialize, tick, current_task_id,
}
use aetheros_rust_project.Task.Scheduler.Turn.{
  IsValid, empty_slots, new-IsValid, run_next-IsValid, add-IsValid,
}
use aetheros_rust_project.Task.Scheduler.Rotation.{turns, turns_fair}

abbrev address : ℕ → ℕ
address a = a

abbrev task : ℕ → Process ℕ
task id = record (Process.new address id (codes "task")) { state = ready }

abbrev booted : Statics ℕ
booted = initialize address (initial_statics ℕ)

-- Two tasks, the first of which runs.
abbrev pair : Scheduler ℕ
pair = booted.scheduler

initialize_runs :
    (booted.task_count ≡ 2)
    × (current_task_id booted ≡ some 0)
    × (current_task_id (tick booted) ≡ some 1)
    × (current_task_id (tick (tick booted)) ≡ some 0)
unfolding initialize tick current_task_id
initialize_runs = (refl, refl, refl, refl)

pair-IsValid : IsValid pair
unfolding initialize
pair-IsValid =
    let idle_task = Process.new address 0 (codes "idle") in
    let init_task = Process.new address 1 (codes "init") in
    run_next-IsValid (add (add (new ℕ) idle_task) init_task) (
      add-IsValid (add (new ℕ) idle_task) init_task
        (add-IsValid (new ℕ) idle_task (new-IsValid ℕ) (λ (e : ready ≡ running). cc))
        (λ (e : ready ≡ running). cc))

pair_slots :
    (get_elem? pair.tasks 0
      ≡ some (some (record (Process.new address 0 (codes "idle")) { state = running })))
    × (get_elem? pair.tasks 1 ≡ some (some (Process.new address 1 (codes "init"))))
unfolding initialize
pair_slots = (refl, refl)

pair_fields : (pair.len ≡ 2) × (pair.current ≡ some 0)
unfolding initialize
pair_fields = (refl, refl)

run_next-IsValid_example : IsValid (run_next pair)
run_next-IsValid_example = run_next-IsValid pair pair-IsValid

turns_fair_example :
    (k : ℕ) × (k < pair.len) × ((turns k pair).current ≡ some 1) × IsValid (turns k pair)
turns_fair_example =
    turns_fair pair 1 pair-IsValid pair_fields.1 (omega (arith, pair_fields.0))
      (omega (arith, pair_fields.0))

booted_ids :
    (i : ℕ) (p : Process ℕ)
    → get_elem? (tick booted).scheduler.tasks i ≡ some (some p)
    → p.id < u64_max
unfolding initialize tick
booted_ids zero p e = ground arith
booted_ids (suc zero) p e = ground arith
booted_ids (suc (suc i)) p e = absurd (empty_slots 14 i e)
