-- ===== src/Arch/Gdt/Stack.antt =====
-- The stack that a double fault gets.

use aetheros_rust_project.Prelude.{
  ℕ, ◌<◌, ◌≡◌, refl, List, [], ◌∷◌, Option, none, some, arith, get_or,
}
use aetheros_rust_project.Arch.Gdt.{
  Crate, Load, load_gdt, set_cs, load_tss, stack_size, double_fault_ist_index, tss, new, init,
}
use aetheros_rust_project.Arch.Interrupts.{as_u8}
use aetheros_rust_project.Arch.Idt.{Entry, build_idt, double_fault_handler}

-- What the loads and the descriptor table give a double fault: the segments of the kernel's code and of
-- the task state, and an index into the latter's stacks at which the end of `STACK` stands.
pub record IsLoaded {G D S T V : Type 0} (crate : Crate G D S T V) (stack : V)
    (select : G → S → Option D) (stack_at : T → ℕ → V) (loads : List (Load G S)) : Type 0 where
  pub gdt : G
  pub code_selector : S
  pub tss_selector : S
  pub loads_are : loads ≡ load_gdt gdt ∷ set_cs code_selector ∷ load_tss tss_selector ∷ []
  pub code : select gdt code_selector ≡ some crate.kernel_code_segment
  pub state : T
  pub task : select gdt tss_selector ≡ some (crate.tss_segment state)
  pub entry : Entry
  pub index : ℕ
  pub found : get_or build_idt 8 none ≡ some entry
  pub handled : entry.handler ≡ double_fault_handler
  pub on_stack : entry.stack_index ≡ some index
  pub stack_end : stack_at state index ≡ crate.add stack stack_size

-- If a selector that `append` gives selects the descriptor, if appending keeps what was selected, and if an
-- entry of the seven stacks is what it was set to, then the code segment and the task state
-- segment that `init` selects are the kernel's in the table that it loads, and the double fault handler, at vector 8, runs on
-- the stack of 20480 bytes, from its end down.
pub init-IsLoaded :
    {G D S T V : Type 0} (crate : Crate G D S T V) (stack : V) (select : G → S → Option D)
    (stack_at : T → ℕ → V)
    → ((g : G) (d : D) → select (crate.append g d).0 (crate.append g d).1 ≡ some d)
    → ((g : G) (d e : D) (s : S) → select g s ≡ some e → select (crate.append g d).0 s ≡ some e)
    → ((t : T) (i : ℕ) (v : V) → i < 7 → stack_at (crate.set_interrupt_stack t i v) i ≡ v)
    → IsLoaded crate stack select stack_at (init crate stack)
unfolding init new tss build_idt as_u8
init-IsLoaded crate stack select stack_at selects keeps sets =
    let code = crate.append crate.new_gdt crate.kernel_code_segment in
    record {
      gdt = _;
      code_selector = _;
      tss_selector = _;
      loads_are = refl;
      code =
          keeps code.0 (crate.tss_segment (tss crate stack)) crate.kernel_code_segment code.1
            (selects crate.new_gdt crate.kernel_code_segment);
      state = tss crate stack;
      task = selects code.0 (crate.tss_segment (tss crate stack));
      entry = record { handler = double_fault_handler; stack_index = some 0 };
      index = 0;
      found = refl;
      handled = refl;
      on_stack = refl;
      stack_end = sets crate.new_tss double_fault_ist_index _ (omega arith);
    }
