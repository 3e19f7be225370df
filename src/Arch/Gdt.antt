-- ===== src/Arch/Gdt.antt =====
-- kernel/src/arch/x86_64/gdt.rs. The tables are of the x86_64 crate: `G` are the descriptor tables, `D` the
-- descriptors, `S` the selectors, `T` the task state segments and `V` the virtual addresses.
pub mod Stack
mod Tests
use aetheros_rust_project.Prelude.{ℕ, ◌*◌, List, [], ◌∷◌}

-- `set_interrupt_stack t i v` sets an entry of `interrupt_stack_table`, and `add` adds to an address.
pub record Crate (G D S T V : Type 0) : Type 0 where
  pub new_gdt : G
  pub append : G → D → G × S
  pub kernel_code_segment : D
  pub tss_segment : T → D
  pub new_tss : T
  pub set_interrupt_stack : T → ℕ → V → T
  pub add : V → ℕ → V

-- `DOUBLE_FAULT_IST_INDEX`
abbrev pub double_fault_ist_index : ℕ
double_fault_ist_index = 0

abbrev pub stack_size : ℕ
stack_size = 4096 * 5

pub record GdtState (G S : Type 0) : Type 0 where
  pub gdt : G
  pub code_selector : S
  pub tss_selector : S

-- What `init` loads into the processor.
pub data Load (G S : Type 0) : Type 0 where
  load_gdt : G → Load G S
  set_cs : S → Load G S
  load_tss : S → Load G S

-- `stack` is the address of `STACK`.
module _ {G D S T V : Type 0} (crate : Crate G D S T V) (stack : V) where
  unfoldable pub tss : T
  tss = crate.set_interrupt_stack crate.new_tss double_fault_ist_index (crate.add stack stack_size)

  unfoldable pub new : GdtState G S
  new =
      let code = crate.append crate.new_gdt crate.kernel_code_segment in
      let task = crate.append code.0 (crate.tss_segment tss) in
      record { gdt = task.0; code_selector = code.1; tss_selector = task.1 }

  unfoldable pub init : List (Load G S)
  init = load_gdt new.gdt ∷ set_cs new.code_selector ∷ load_tss new.tss_selector ∷ []
