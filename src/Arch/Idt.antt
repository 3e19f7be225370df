-- ===== src/Arch/Idt.antt =====
-- kernel/src/arch/x86_64/idt.rs: the interrupt descriptor table, of the x86_64 crate, as a table of
-- 256 entries. The crate's fields for exceptions stand at the vectors of the processor.
use aetheros_rust_project.Prelude.{ℕ, List, Option, none, some, set, replicate}
use aetheros_rust_project.Arch.Gdt.{double_fault_ist_index}
use aetheros_rust_project.Arch.Interrupts.{timer, keyboard, as_u8}

-- The functions of interrupts.rs that the table points to.
pub data Handler : Type 0 where
  breakpoint_handler double_fault_handler general_protection_fault_handler : Handler
  page_fault_handler timer_interrupt_handler keyboard_interrupt_handler : Handler

-- An entry with its index into the interrupt stack table, if it has one.
pub record Entry : Type 0 where
  pub handler : Handler
  pub stack_index : Option ℕ

abbrev pub Table : Type 0
Table = List (Option Entry)

-- `set_handler_fn`
abbrev set_handler_fn : ℕ → Handler → Table → Table
set_handler_fn vector handler t =
    set t vector (some (record { handler = handler; stack_index = none }))

-- `set_handler_fn` and `set_stack_index`
abbrev set_handler_on_stack : ℕ → Handler → ℕ → Table → Table
set_handler_on_stack vector handler index t =
    set t vector (some (record { handler = handler; stack_index = some index }))

unfoldable pub build_idt : Table
build_idt =
    let idt₁ = set_handler_fn 3 breakpoint_handler (replicate 256 none) in
    let idt₂ = set_handler_on_stack 8 double_fault_handler double_fault_ist_index idt₁ in
    let idt₃ = set_handler_fn 13 general_protection_fault_handler idt₂ in
    let idt₄ = set_handler_fn 14 page_fault_handler idt₃ in
    let idt₅ = set_handler_fn (as_u8 timer) timer_interrupt_handler idt₄ in
    set_handler_fn (as_u8 keyboard) keyboard_interrupt_handler idt₅
