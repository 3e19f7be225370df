-- ===== src/Arch/Gdt/Tests.antt =====
-- A descriptor table as the list of its descriptors, the last one first; a selector counts the descriptors
-- before its own, and a descriptor is none for code or a task state segment, which gives its stacks.

use aetheros_rust_project.Prelude.{
  ℕ, ◌+◌, ◌<◌, ◌≡◌, List, [], ◌∷◌, Option, none, some, arith, length, ◌==◌, if◌then◌else◌,
  Bool-cases, inl, inr,
}
use aetheros_rust_project.Arch.Gdt.{Crate, init}
use aetheros_rust_project.Arch.Gdt.Stack.{IsLoaded, init-IsLoaded}

abbrev Stacks : Type 0
Stacks = ℕ → ℕ

abbrev crate : Crate (List (Option Stacks)) (Option Stacks) ℕ Stacks ℕ
crate = record {
  new_gdt = [];
  append = λ g d. (d ∷ g, length g);
  kernel_code_segment = none;
  tss_segment = some;
  new_tss = λ i. 0;
  set_interrupt_stack = λ t i v j. if j == i then v else t j;
  add = λ v n. v + n;
}

abbrev select : List (Option Stacks) → ℕ → Option (Option Stacks)
select [] s = none
select (d ∷ g) s = let rest = select g s in if s == length g then some d else rest

select-lt :
    (g : List (Option Stacks)) (s : ℕ) (e : Option Stacks) → select g s ≡ some e → s < length g
select-lt [] s e h = absurd cc
select-lt (d ∷ g) s e h = elim (Bool-cases (s == length g)) [
  | inl last ↦ ground (arith, last)
  | inr other ↦ let q = rw other at h in omega (arith, select-lt g s e q)
]

selects : (g : List (Option Stacks)) (d : Option Stacks) → select (d ∷ g) (length g) ≡ some d
selects g d = ground arith

keeps :
    (g : List (Option Stacks)) (d e : Option Stacks) (s : ℕ)
    → select g s ≡ some e
    → select (d ∷ g) s ≡ some e
keeps g d e s h = ground (arith, select-lt g s e h, h)

init-IsLoaded_example : IsLoaded crate 4096 select (λ t i. t i) (init crate 4096)
init-IsLoaded_example =
    init-IsLoaded crate 4096 select (λ t i. t i) selects keeps (λ t i v h. ground arith)
