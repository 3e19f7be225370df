-- ===== src/Kernel/Among/Shown.antt =====
-- The kernel once its shell is initialized, and the interrupts that arrive then.
use native.Mathlib.Nat.{mod-add-mod, mod-lt}
use aetheros_rust_project.Prelude.{
  ℕ, ◌+◌, ◌%◌, ◌≡◌, refl, subst, sym, ap, ap₂, ◌∙◌, true, false, List, ◌++◌, append_assoc, Option,
  arith, length,
}
use aetheros_rust_project.Prelude.Text.{Text}
use aetheros_rust_project.Prelude.Words.{u64_mod}
use aetheros_rust_project.BootInfo.{BootInfo, FramebufferInfo}
use aetheros_rust_project.Memory.FrameAllocator as Frames
use aetheros_rust_project.Memory.Heap
use aetheros_rust_project.Task.Scheduler
use aetheros_rust_project.Task.Scheduler.Start.{ticked, ticked_add}
use aetheros_rust_project.Arch.Serial.{PortWrite}
use aetheros_rust_project.Shell
use aetheros_rust_project.Shell.{Shell}
use aetheros_rust_project.Shell.Lines as Lines
use aetheros_rust_project.Kernel.Typing.{IsReady, run-typed}
use aetheros_rust_project.Kernel.{Machine, Interrupt, run}
use aetheros_rust_project.Kernel.Init.{initialize_shell, report}
use aetheros_rust_project.Kernel.Run.{
  run-Ran, timers, acknowledged, acknowledgements, acknowledged_add,
}
use aetheros_rust_project.Kernel.Among.Early.{At}

-- The statics with a shell that is initialized.
pub record Ready {V : Type 0} (scheduler : Scheduler.Statics V) (ticks : ℕ)
    (frames : Frames.Statics) (heap : Heap.BumpAllocator) (framebuffer : Option FramebufferInfo)
    (ports : List PortWrite) (m : Machine V) : Type 0 where
  pub scheduler_is : m.kernel.scheduler ≡ scheduler
  pub ticks_are : m.kernel.ticks ≡ ticks % u64_mod
  pub frames_are : m.kernel.frames ≡ frames
  pub heap_is : m.kernel.heap ≡ heap
  pub framebuffer_is : m.kernel.framebuffer ≡ framebuffer
  pub pics_are : m.pics_initialized ≡ true
  pub ports_are : m.ports ≡ ports
  pub ready : IsReady m

module _ {V : Type 0} (virt_addr : ℕ → V) (heap_space saved_mask1 saved_mask2 : ℕ)
    (show_nat show_hex : ℕ → Text) (show_name : Option Text → Text) where
  abbrev pub go : List Interrupt → Machine V → Machine V
  go is m = run show_nat show_name is m

  abbrev pub shell_on : Machine V → Machine V
  shell_on m =
      initialize_shell virt_addr heap_space saved_mask1 saved_mask2 show_nat show_hex show_name m

  abbrev pub reported : BootInfo → Machine V → Machine V
  reported b m = record m {
    kernel =
        report virt_addr heap_space saved_mask1 saved_mask2 show_nat show_hex show_name b m.kernel;
  }

  pub shell-Ready :
      {m : Machine V} {st : Scheduler.Statics V} {t : ℕ} {fs : Frames.Statics}
      {h : Heap.BumpAllocator} {fb : Option FramebufferInfo} {ports : List PortWrite}
      → At st t fs h fb true true ports m
      → Ready st t fs h fb ports (shell_on m)
  unfolding initialize_shell Shell.initialize Shell.prompt
  shell-Ready {m} at =
      let off : m.shell.initialized ≡ false = ap (λ s. s.initialized) at.shell_is in
      let now = ap (λ (s : Shell). record s { initialized = true }) at.shell_is in
      rw off (record {
        scheduler_is = at.scheduler_is;
        ticks_are = at.ticks_are;
        frames_are = at.frames_are;
        heap_is = at.heap_is;
        framebuffer_is = at.framebuffer_is;
        pics_are = at.pics_are;
        ports_are = at.ports_are;
        ready = record {
          keyboard = at.keyboard_is;
          shell = refl;
          valid =
              subst (λ (s : Shell). Lines.IsValid s) (sym now)
                (record { sized = refl; bounded = omega arith });
        };
      })

  -- The last interrupts.
  pub run-Ready :
      (is : List Interrupt) (st : Scheduler.Statics V) (k n : ℕ) (ports : List PortWrite)
      {m : Machine V} {t : ℕ} {fs : Frames.Statics} {h : Heap.BumpAllocator}
      {fb : Option FramebufferInfo}
      → Ready (ticked k st) t fs h fb (ports ++ acknowledgements n) m
      → Ready
          (ticked (k + timers is) st)
          (t + timers is)
          fs
          h
          fb
          (ports ++ acknowledgements (n + length is))
          (go is m)
  run-Ready is st k n ports {m} at =
      let r = run-Ran show_nat show_name is m (rw at.ticks_are (mod-lt _ (omega arith))) in
      record {
        scheduler_is =
            r.scheduler ∙ ap (ticked (timers is)) at.scheduler_is ∙ ticked_add k (timers is) st;
        ticks_are = r.ticks ∙ ap (λ n. (n + timers is) % u64_mod) at.ticks_are ∙ mod-add-mod _ _ _;
        frames_are = r.frames ∙ at.frames_are;
        heap_is = r.heap ∙ at.heap_is;
        framebuffer_is = r.framebuffer ∙ at.framebuffer_is;
        pics_are = r.pics_initialized ∙ at.pics_are;
        ports_are =
            r.ports
            ∙ ap₂ (λ w b. w ++ acknowledged b (length is)) at.ports_are at.pics_are
            ∙ append_assoc ports (acknowledgements n) (acknowledgements (length is))
            ∙ ap (◌++◌ ports) (acknowledged_add true n (length is));
        ready = (run-typed show_nat show_name is m at.ready).0;
      }
