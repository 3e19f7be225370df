-- ===== src/Kernel.antt =====
-- The kernel as a whole: the interrupt handlers of kernel/src/arch/x86_64/interrupts.rs with
-- kernel/src/drivers/timer.rs and keyboard.rs, and the order of kernel/src/core/init.rs. What
-- `Shell` takes as parameters is one here too; `heap_space` is the address of `HEAP_SPACE`, and
-- `show_hex` stands for `{:#x}`. A handler runs to its end before the next one starts.
pub mod Init
pub mod Syscall
pub mod Run
pub mod Invariant
pub mod Boot
pub mod Typing
pub mod Traps
pub mod Locks
pub mod Among
mod Tests
use aetheros_rust_project.Prelude.{
  ℕ, ◌+◌, ◌%◌, Bool, List, [], ◌∷◌, ◌++◌, Option, none, some, ◌==◌, if◌then◌else◌,
}
use aetheros_rust_project.Prelude.Text.{Text, codes}
use aetheros_rust_project.Prelude.Words.{add64}
use aetheros_rust_project.Task.Scheduler
use aetheros_rust_project.Drivers.Keyboard
use aetheros_rust_project.Drivers.Keyboard.{KeyEvent}
use aetheros_rust_project.Arch.Serial.{PortWrite}
use aetheros_rust_project.Arch.Interrupts.{InterruptIndex, timer, keyboard, notify_end_of_interrupt}
use aetheros_rust_project.Shell
use aetheros_rust_project.Shell.{Shell, Kernel, println, on_key}

module _ (V : Type 0) where
  -- The statics of the kernel; `pics_initialized` is `INITIALIZED` of interrupts.rs, and `ports`
  -- what was written to the interrupt controllers and the timer so far.
  pub record Machine : Type 0 where
    pub kernel : Kernel V
    pub shell : Shell
    pub vfs_initialized : Bool
    pub pics_initialized : Bool
    pub ports : List PortWrite

-- An interrupt, with the byte that port 0x60 gives.
pub data Interrupt : Type 0 where
  tick : Interrupt
  key : ℕ → Interrupt

module _ {V : Type 0} (show_nat : ℕ → Text) (show_name : Option Text → Text) where
  -- `on_tick` of timer.rs. The counter wraps, as `fetch_add` does.
  unfoldable pub on_tick : Kernel V → Kernel V
  on_tick k =
      let now = add64 k.ticks 1 in
      let turned = record k { ticks = now; scheduler = Scheduler.tick k.scheduler } in
      if now % 100 == 0
      then println show_nat show_name (codes "AetherOS: uptime ticks=" ++ show_nat now) turned
      else turned

  abbrev end_of_interrupt : InterruptIndex → Machine V → Machine V
  end_of_interrupt index m = record m {
    ports = m.ports ++ notify_end_of_interrupt m.pics_initialized index;
  }

  unfoldable pub timer_interrupt_handler : Machine V → Machine V
  timer_interrupt_handler m = end_of_interrupt timer (record m { kernel = on_tick m.kernel })

  -- The end of `on_interrupt` of keyboard.rs: the event goes to the shell.
  unfoldable pub deliver : Option KeyEvent → Shell → Kernel V → Shell × Kernel V
  deliver none s k = (s, k)
  deliver (some event) s k = on_key show_nat show_name event s k

  unfoldable pub keyboard_interrupt_handler : ℕ → Machine V → Machine V
  unfolding deliver
  keyboard_interrupt_handler scancode m =
      let (event, keyboard_statics) = Keyboard.on_interrupt m.kernel.keyboard scancode in
      let r = deliver event m.shell (record m.kernel { keyboard = keyboard_statics }) in
      end_of_interrupt keyboard (record m { shell = r.0; kernel = r.1 })

  unfoldable pub handle : Interrupt → Machine V → Machine V
  handle tick m = timer_interrupt_handler m
  handle (key scancode) m = keyboard_interrupt_handler scancode m

  -- A sequence of interrupts, the first one first.
  unfoldable pub run : List Interrupt → Machine V → Machine V
  run [] m = m
  run (i ∷ is) m = run is (handle i m)
