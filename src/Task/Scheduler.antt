-- ===== src/Task/Scheduler.antt =====
-- kernel/src/task/scheduler.rs: a cooperative round-robin over at most 16 tasks. The mutex and the
-- two atomics are fields of one state; `V` stands for `VirtAddr` of the x86_64 crate.
pub mod Turn
pub mod Rotation
pub mod Start
mod Tests
use mathlib.Core.Option
use aetheros_rust_project.Prelude.{
  ℕ, ◌+◌, ◌%◌, Option, none, some, List, get_or, set, replicate, ltb, ◌==◌, if◌then◌else◌,
}
use aetheros_rust_project.Prelude.Text.{Text, codes}
use aetheros_rust_project.Prelude.Words.{u64_max}
use aetheros_rust_project.Memory.AddressSpace.{AddressSpaceKind}
use aetheros_rust_project.Task.Process
use aetheros_rust_project.Task.Process.{Process, ProcessState, ready, running, idle, ExecutionMode}

abbrev pub max_tasks : ℕ
max_tasks = 16

module _ (V : Type 0) where
  -- `tasks` has 16 slots, of which the first `len` are taken.
  pub record Scheduler : Type 0 where
    pub tasks : List (Option (Process V))
    pub len : ℕ
    pub current : Option ℕ

  -- `SCHEDULER`, `TASK_COUNT` and `CURRENT_TASK_ID`
  pub record Statics : Type 0 where
    pub scheduler : Scheduler
    pub task_count : ℕ
    pub current_task_id : ℕ

  -- `Scheduler::new`
  abbrev pub new : Scheduler
  new = record { tasks = replicate max_tasks none; len = 0; current = none }

  abbrev pub initial_statics : Statics
  initial_statics = record { scheduler = new; task_count = 0; current_task_id = u64_max }

abbrev pub scheduling_model : Text
scheduling_model = codes "cooperative round-robin demo"

abbrev pub next_index : Option ℕ → ℕ → ℕ
next_index none len = 0
next_index (some current) len = (current + 1) % len

module _ {V : Type 0} where
  -- `Scheduler::add`: a full table drops the process.
  pub add : Scheduler V → Process V → Scheduler V
  add s process =
      if ltb s.len max_tasks
      then record s { tasks = set s.tasks s.len (some process); len = s.len + 1 }
      else s

  -- What a task becomes when it is taken off the processor, and when it is put on it.
  abbrev pub rest : Process V → Process V
  rest p = record p { state = if p.id == 0 then idle else ready }

  abbrev pub run : Process V → Process V
  run p = record p { state = running }

  -- A slot that holds a task is changed. An index past the array would panic; `Turn` shows that
  -- none occurs.
  abbrev pub change :
      (Process V → Process V) → List (Option (Process V)) → ℕ → List (Option (Process V))
  change f tasks i = set tasks i (Option.map f (get_or tasks i none))

  abbrev pub rest_current : List (Option (Process V)) → Option ℕ → List (Option (Process V))
  rest_current tasks none = tasks
  rest_current tasks (some current) = change rest tasks current

  -- `Scheduler::run_next`
  pub run_next : Scheduler V → Scheduler V
  run_next s = if s.len == 0 then s else record s {
    tasks = change run (rest_current s.tasks s.current) (next_index s.current s.len);
    current = some (next_index s.current s.len);
  }

  pub current_task : Scheduler V → Option (Process V)
  current_task s = elim s.current [ none ↦ none | some index ↦ get_or s.tasks index none ]

  -- `Scheduler::current_task_id`
  pub scheduled_id : Scheduler V → ℕ
  unfolding current_task
  scheduled_id s = elim (current_task s) [ none ↦ u64_max | some task ↦ task.id ]

  -- The module's `tick`.
  pub tick : Statics V → Statics V
  unfolding run_next scheduled_id
  tick st =
      let s = run_next st.scheduler in record st { scheduler = s; current_task_id = scheduled_id s }

  -- The module's `current_task_id`.
  pub current_task_id : Statics V → Option ℕ
  current_task_id st = if st.current_task_id == u64_max then none else some st.current_task_id

  unfoldable pub current_task_name : Statics V → Option Text
  unfolding current_task
  current_task_name st = Option.map (λ task. task.name) (current_task st.scheduler)

  unfoldable pub current_task_state : Statics V → Option ProcessState
  unfolding current_task
  current_task_state st = Option.map (λ task. task.state) (current_task st.scheduler)

  unfoldable pub current_task_execution_mode : Statics V → Option ExecutionMode
  unfolding current_task
  current_task_execution_mode st =
      Option.map (λ task. task.execution_mode) (current_task st.scheduler)

  unfoldable pub current_task_address_space_kind : Statics V → Option AddressSpaceKind
  unfolding current_task
  current_task_address_space_kind st =
      Option.map (λ task. task.address_space.kind) (current_task st.scheduler)

-- The module's `initialize`.
pub initialize : {V : Type 0} → (ℕ → V) → Statics V → Statics V
unfolding add run_next scheduled_id Process.new
initialize virt_addr st =
    let two =
      add (add st.scheduler (Process.new virt_addr 0 (codes "idle")))
        (Process.new virt_addr 1 (codes "init")) in
    let s = run_next two in
    record { scheduler = s; task_count = s.len; current_task_id = scheduled_id s }
