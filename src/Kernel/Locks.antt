-- ===== src/Kernel/Locks.antt =====
-- The spin locks of the kernel (the statics of task/scheduler.rs, arch/x86_64/serial.rs and
-- arch/x86_64/interrupts.rs in kernel/src) that a timer interrupt takes, on one processor: the code that was
-- interrupted does not go on before the handler returns, and `lock` of the spin crate waits until the
-- lock is free. The handler takes its locks one after the other.
pub mod Waits
mod Tests
use aetheros_rust_project.Prelude.{
  ℕ, ◌%◌, ◌≡◌, Bool, true, false, List, [], ◌∷◌, ◌++◌, Option, none, some, ◌==◌, if◌then◌else◌,
}
use aetheros_rust_project.Prelude.Words.{add64}

pub data Lock : Type 0 where
  scheduler serial pics : Lock

abbrev pub same_lock : Lock → Lock → Bool
same_lock scheduler scheduler = true
same_lock scheduler serial = false
same_lock scheduler pics = false
same_lock serial scheduler = false
same_lock serial serial = true
same_lock serial pics = false
same_lock pics scheduler = false
same_lock pics serial = false
same_lock pics pics = true

-- What `lock` does, and what dropping its guard does.
pub data Action : Type 0 where
  acquire release : Lock → Action

-- Locks that are taken one after the other.
abbrev pub sections : List Lock → List Action
sections [] = []
sections (l ∷ ls) = acquire l ∷ release l ∷ sections ls

-- The locks of `timer_interrupt_handler`, when `TICKS` is `ticks`.
unfoldable pub timer_locks : (ticks : ℕ) → (initialized : Bool) → List Lock
timer_locks ticks initialized =
    scheduler ∷ (if add64 ticks 1 % 100 == 0 then serial ∷ [] else [])
    ++ (if initialized then pics ∷ [] else [])

-- `main` is what is left of the code outside the handler, `handler` of the handler that runs.
pub record System : Type 0 where
  pub held : Lock → Bool
  pub main : List Action
  pub handler : Option (List Action)

abbrev pub set_held : (Lock → Bool) → Lock → Bool → Lock → Bool
set_held held l b k = if same_lock l k then b else held k

-- `arrives` are the locks of the interrupts.
pub data Step (arrives : List Lock) (s : System) : System → Type 0 where
  main_acquire :
      {l : Lock} {rest : List Action}
      → s.handler ≡ none
      → s.main ≡ acquire l ∷ rest
      → s.held l ≡ false
      → Step arrives s (record s { held = set_held s.held l true; main = rest })
  main_release :
      {l : Lock} {rest : List Action}
      → s.handler ≡ none
      → s.main ≡ release l ∷ rest
      → Step arrives s (record s { held = set_held s.held l false; main = rest })
  interrupt : s.handler ≡ none → Step arrives s (record s { handler = some (sections arrives) })
  handler_acquire :
      {l : Lock} {rest : List Action}
      → s.handler ≡ some (acquire l ∷ rest)
      → s.held l ≡ false
      → Step arrives s (record s { held = set_held s.held l true; handler = some rest })
  handler_release :
      {l : Lock} {rest : List Action}
      → s.handler ≡ some (release l ∷ rest)
      → Step arrives s (record s { held = set_held s.held l false; handler = some rest })
  handler_return : s.handler ≡ some [] → Step arrives s (record s { handler = none })

pub data Reach (arrives : List Lock) : System → System → Type 0 where
  here : {s : System} → Reach arrives s s
  next : {s u t : System} → Step arrives s u → Reach arrives u t → Reach arrives s t
