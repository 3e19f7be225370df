-- ===== src/Task/Scheduler/Start.antt =====
-- The two tasks that `initialize` of kernel/src/task/scheduler.rs starts with, and their ticks.
use aetheros_rust_project.Prelude.{
  ℕ, zero, suc, ◌+◌, ◌%◌, ◌≡◌, ◌<◌, false, refl, sym, ap, ◌∙◌, some, arith, ◌==◌, if◌then◌else◌,
}
use aetheros_rust_project.Prelude.Text.{codes}
use aetheros_rust_project.Memory.AddressSpace
use aetheros_rust_project.Memory.AddressSpace.{kernel_only}
use aetheros_rust_project.Task.Process
use aetheros_rust_project.Task.Process.{Process, running, kernel}
use aetheros_rust_project.Task.Scheduler.{
  Statics, new, initial_statics, next_index, initialize, tick, add, run_next, scheduled_id,
  current_task, current_task_id, current_task_name, current_task_state, current_task_execution_mode,
  current_task_address_space_kind,
}
use aetheros_rust_project.Task.Scheduler.Turn.{
  IsValid, new-IsValid, add-IsValid, run_next-IsValid, lt_of_IsIndex,
}

-- `n` ticks of the scheduler.
abbrev pub ticked : {V : Type 0} → ℕ → Statics V → Statics V
ticked zero st = st
ticked (suc n) st = tick (ticked n st)

pub ticked-tick : {V : Type 0} (n : ℕ) (st : Statics V) → ticked n (tick st) ≡ tick (ticked n st)
ticked-tick zero st = refl
ticked-tick (suc n) st = ap tick (ticked-tick n st)

pub ticked_add :
    {V : Type 0} (a b : ℕ) (st : Statics V) → ticked b (ticked a st) ≡ ticked (a + b) st
ticked_add zero b st = ap (λ n. ticked n st) (let e : b ≡ 0 + b = omega arith in e)
ticked_add (suc a) b st =
    ticked-tick b (ticked a st)
    ∙ ap tick (ticked_add a b st)
    ∙ ap (λ n. ticked n st) (let e : suc (a + b) ≡ suc a + b = omega arith in e)

tick-initial_statics : (V : Type 0) → tick (initial_statics V) ≡ initial_statics V
unfolding tick run_next scheduled_id current_task
tick-initial_statics V = refl

-- Ticks before there is a task have no effect.
pub ticked-initial_statics : (V : Type 0) (n : ℕ) → ticked n (initial_statics V) ≡ initial_statics V
ticked-initial_statics V zero = refl
ticked-initial_statics V (suc n) = ap tick (ticked-initial_statics V n) ∙ tick-initial_statics V

-- The scheduler with `place` current out of the tasks `idle` and `init`.
pub record HasTurn {V : Type 0} (place : ℕ) (st : Statics V) : Type 0 where
  pub current : st.scheduler.current ≡ some place
  pub task_count : st.task_count ≡ 2
  pub id : current_task_id st ≡ some place
  pub name : current_task_name st ≡ some (if place == 0 then codes "idle" else codes "init")
  pub state : current_task_state st ≡ some running
  pub mode : current_task_execution_mode st ≡ some kernel
  pub kind : current_task_address_space_kind st ≡ some kernel_only

module _ {V : Type 0} (virt_addr : ℕ → V) where
  abbrev pub started : Statics V
  started = initialize virt_addr (initial_statics V)

  two_ticks : tick (tick started) ≡ started
  unfolding initialize tick add run_next scheduled_id current_task Process.new AddressSpace.new
  two_ticks = refl

  pub first-HasTurn : HasTurn 0 started
  unfolding initialize tick add run_next scheduled_id current_task Process.new AddressSpace.new
      current_task_id current_task_name current_task_state current_task_execution_mode
      current_task_address_space_kind
  first-HasTurn = record {
    current = refl;
    task_count = refl;
    id = refl;
    name = refl;
    state = refl;
    mode = refl;
    kind = refl;
  }

  second-HasTurn : HasTurn 1 (tick started)
  unfolding initialize tick add run_next scheduled_id current_task Process.new AddressSpace.new
      current_task_id current_task_name current_task_state current_task_execution_mode
      current_task_address_space_kind
  second-HasTurn = record {
    current = refl;
    task_count = refl;
    id = refl;
    name = refl;
    state = refl;
    mode = refl;
    kind = refl;
  }

  -- After `n` ticks from the start, the idle task has the turn if `n` is even and the init task if
  -- not: its id is published, and it is the running task.
  pub started-HasTurn : (n : ℕ) → HasTurn (n % 2) (ticked n started)
  started-HasTurn zero = first-HasTurn
  started-HasTurn (suc zero) = second-HasTurn
  started-HasTurn (suc (suc n)) =
      let back : ticked (suc (suc n)) started ≡ ticked n started =
        ap tick (sym (ticked-tick n started))
        ∙ sym (ticked-tick n (tick started))
        ∙ ap (ticked n) two_ticks in
      let parity : suc (suc n) % 2 ≡ n % 2 = omega arith in rw (back, parity) (started-HasTurn n)

  -- The table that `initialize` leaves is well formed.
  pub started-IsValid : IsValid started.scheduler
  unfolding initialize Process.new
  started-IsValid =
      let idle = Process.new virt_addr 0 (codes "idle") in
      let init = Process.new virt_addr 1 (codes "init") in
      let one = add-IsValid (new V) idle (new-IsValid V) (λ e. cc) in
      run_next-IsValid (add (add (new V) idle) init)
        (add-IsValid (add (new V) idle) init one (λ e. cc))

pub tick-IsValid :
    {V : Type 0} (st : Statics V) → IsValid st.scheduler → IsValid (tick st).scheduler
unfolding tick
tick-IsValid st v = run_next-IsValid st.scheduler v

pub ticked-IsValid :
    {V : Type 0} (n : ℕ) (st : Statics V) → IsValid st.scheduler → IsValid (ticked n st).scheduler
ticked-IsValid zero st v = v
ticked-IsValid (suc n) st v = tick-IsValid (ticked n st) (ticked-IsValid n st v)

-- A task is current.
abbrev pub HasCurrent : {V : Type 0} → Statics V → Type 0
HasCurrent st = (i : ℕ) × (st.scheduler.current ≡ some i)

pub tick-HasCurrent :
    {V : Type 0} (st : Statics V) → IsValid st.scheduler → HasCurrent st → HasCurrent (tick st)
unfolding tick run_next
tick-HasCurrent st v (i, at) =
    let s = st.scheduler in
    let inside : i < s.len = lt_of_IsIndex s.current s.len i v.pointed at in
    let some_task : (s.len == 0) ≡ false = ground arith in
    (next_index s.current s.len, rw some_task refl)

pub ticked-HasCurrent :
    {V : Type 0} (n : ℕ) (st : Statics V)
    → IsValid st.scheduler
    → HasCurrent st
    → HasCurrent (ticked n st)
ticked-HasCurrent zero st v at = at
ticked-HasCurrent (suc n) st v at =
    tick-HasCurrent (ticked n st) (ticked-IsValid n st v) (ticked-HasCurrent n st v at)
