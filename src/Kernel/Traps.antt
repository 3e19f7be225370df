-- ===== src/Kernel/Traps.antt =====
-- The exception handlers of kernel/src/arch/x86_64/interrupts.rs, the panic handler of
-- kernel/src/core/panic.rs, and what a trap through the descriptor table runs.

use aetheros_rust_project.Prelude.{ℕ, ◌++◌, Option}
use aetheros_rust_project.Prelude.Text.{Text, codes}
use aetheros_rust_project.Arch.Boot.{stage_label, from_u8}
use aetheros_rust_project.Arch.Idt.{
  Handler, breakpoint_handler, double_fault_handler, general_protection_fault_handler,
  page_fault_handler, timer_interrupt_handler, keyboard_interrupt_handler,
}
use aetheros_rust_project.Shell.{Kernel, println, print}
use aetheros_rust_project.Kernel as Handlers
use aetheros_rust_project.Kernel.{Machine}

-- `halt_forever` does not return.
pub data Ending : Type 0 where
  returns halts : Ending

-- What a handler gets and reads, as the core library shows it: the stack frame, the error code as a
-- number and as flags, the address that faulted, and the byte of port 0x60.
pub record Trap : Type 0 where
  pub stack_frame : Text
  pub error_code : ℕ
  pub error_flags : Text
  pub address : Text
  pub scancode : ℕ

module _ {V : Type 0} (show_nat : ℕ → Text) (show_name : Option Text → Text) where
  abbrev say : Text → Machine V → Machine V
  say text m = record m { kernel = println show_nat show_name text m.kernel }

  -- `breakpoint_handler`
  unfoldable pub breakpoint : Trap → Machine V → Machine V
  breakpoint t m = say t.stack_frame (say (codes "AetherOS: breakpoint exception") m)

  -- `double_fault_handler` and the next two, up to `halt_forever`.
  unfoldable pub double_fault : Trap → Machine V → Machine V
  double_fault t m =
      say t.stack_frame
        (say (codes "AetherOS: double fault, error_code=" ++ show_nat t.error_code) m)

  unfoldable pub general_protection_fault : Trap → Machine V → Machine V
  general_protection_fault t m =
      say t.stack_frame
        (say (codes "AetherOS: general protection fault, error_code=" ++ show_nat t.error_code) m)

  unfoldable pub page_fault : Trap → Machine V → Machine V
  page_fault t m =
      let m₁ = say (codes "AetherOS: page fault accessing " ++ t.address) m in
      say t.stack_frame (say (codes "AetherOS: page fault error_code=" ++ t.error_flags) m₁)

  unfoldable pub invoke : Handler → Trap → Machine V → Ending × Machine V
  invoke breakpoint_handler t m = (returns, breakpoint t m)
  invoke double_fault_handler t m = (halts, double_fault t m)
  invoke general_protection_fault_handler t m = (halts, general_protection_fault t m)
  invoke page_fault_handler t m = (halts, page_fault t m)
  invoke timer_interrupt_handler t m =
      (returns, Handlers.timer_interrupt_handler show_nat show_name m)
  invoke keyboard_interrupt_handler t m =
      (returns, Handlers.keyboard_interrupt_handler show_nat show_name t.scancode m)

  -- `handle` of panic.rs, up to `halt_forever`. The serial port and `println` write to one device.
  unfoldable pub panic : (boot_stage : ℕ) → (info : Text) → Kernel V → Kernel V
  panic boot_stage info k =
      let stage = codes "AetherOS panic stage: " ++ stage_label (from_u8 boot_stage) in
      let message = codes "AetherOS panic: " ++ info in
      let k₁ = print show_nat show_name (stage ++ codes "\n" ++ message ++ codes "\n") k in
      println show_nat show_name message (println show_nat show_name stage k₁)
