-- ===== src/Kernel/Among/Early.antt =====
-- The kernel before its shell is initialized, and the interrupts that arrive then.
use native.Mathlib.Nat.{mod-add-mod, mod-lt}
use aetheros_rust_project.Prelude.{
  ℕ, zero, suc, ◌+◌, ◌%◌, ◌≡◌, refl, ap, ap₂, ◌∙◌, Bool, true, false, List, [], ◌∷◌, ◌++◌,
  append_assoc, Option, none, some, arith, length, if◌then◌else◌,
}
use aetheros_rust_project.Prelude.Text.{Text}
use aetheros_rust_project.Prelude.Words.{u64_mod}
use aetheros_rust_project.BootInfo.{FramebufferInfo}
use aetheros_rust_project.Memory.FrameAllocator as Frames
use aetheros_rust_project.Memory.Heap
use aetheros_rust_project.Task.Scheduler
use aetheros_rust_project.Task.Scheduler.Start.{ticked, ticked_add}
use aetheros_rust_project.Fs.Vfs.{initial_overlay}
use aetheros_rust_project.Drivers.Keyboard
use aetheros_rust_project.Drivers.Keyboard.{KeyEvent}
use aetheros_rust_project.Arch.Serial.{PortWrite}
use aetheros_rust_project.Shell
use aetheros_rust_project.Shell.{Shell, Kernel}
use aetheros_rust_project.Shell.Lines.{on_key-early}
use aetheros_rust_project.Kernel.{
  Machine, Interrupt, tick, key, run, handle, deliver, timer_interrupt_handler,
  keyboard_interrupt_handler,
}
use aetheros_rust_project.Kernel.Run.{
  run-Ran, timers, acknowledged, acknowledgements, on_tick-Ticked, acknowledged_add,
}

-- The number of timer interrupts, and of all interrupts, in `n` places from the `i`th on.
abbrev pub timers_in : (ℕ → List Interrupt) → (i n : ℕ) → ℕ
timers_in a i zero = 0
timers_in a i (suc n) = timers_in a i n + timers (a (i + n))

abbrev pub arrivals_in : (ℕ → List Interrupt) → (i n : ℕ) → ℕ
arrivals_in a i zero = 0
arrivals_in a i (suc n) = arrivals_in a i n + length (a (i + n))

-- The statics while the shell is not initialized.
pub record At {V : Type 0} (scheduler : Scheduler.Statics V) (ticks : ℕ) (frames : Frames.Statics)
    (heap : Heap.BumpAllocator) (framebuffer : Option FramebufferInfo) (keyboard pics : Bool)
    (ports : List PortWrite) (m : Machine V) : Type 0 where
  pub scheduler_is : m.kernel.scheduler ≡ scheduler
  pub ticks_are : m.kernel.ticks ≡ ticks % u64_mod
  pub frames_are : m.kernel.frames ≡ frames
  pub heap_is : m.kernel.heap ≡ heap
  pub framebuffer_is : m.kernel.framebuffer ≡ framebuffer
  pub keyboard_is : m.kernel.keyboard.initialized ≡ keyboard
  pub pics_are : m.pics_initialized ≡ pics
  pub ports_are : m.ports ≡ ports
  pub shell_is : m.shell ≡ Shell.new
  pub overlay_is : m.kernel.overlay ≡ initial_overlay

pub pics-At :
    {V : Type 0} {m : Machine V} {st : Scheduler.Statics V} {t : ℕ} {fs : Frames.Statics}
    {h : Heap.BumpAllocator} {fb : Option FramebufferInfo} {kb pics : Bool} {ports : List PortWrite}
    → At st t fs h fb kb pics ports m
    → At st t fs h fb kb true ports (record m { pics_initialized = true })
pics-At at = record {
  scheduler_is = at.scheduler_is;
  ticks_are = at.ticks_are;
  frames_are = at.frames_are;
  heap_is = at.heap_is;
  framebuffer_is = at.framebuffer_is;
  keyboard_is = at.keyboard_is;
  pics_are = refl;
  ports_are = at.ports_are;
  shell_is = at.shell_is;
  overlay_is = at.overlay_is;
}

pub if-At :
    {V : Type 0} (test : Bool) {m m' : Machine V} {st : Scheduler.Statics V} {t : ℕ}
    {fs : Frames.Statics} {h : Heap.BumpAllocator} {fb : Option FramebufferInfo} {kb pics : Bool}
    {ports : List PortWrite}
    → At st t fs h fb kb pics ports m
    → At st t fs h fb kb pics ports m'
    → At st t fs h fb kb pics ports (if test then m else m')
if-At true at at' = at
if-At false at at' = at'

module _ {V : Type 0} (show_nat : ℕ → Text) (show_name : Option Text → Text) where
  deliver-early :
      (event : Option KeyEvent) (s : Shell) (k : Kernel V)
      → s.initialized ≡ false
      → deliver show_nat show_name event s k ≡ (s, k)
  unfolding deliver
  deliver-early none s k early = refl
  deliver-early (some event) s k early = on_key-early show_nat show_name event s k early

  handle-early :
      (i : Interrupt) (m : Machine V)
      → m.shell.initialized ≡ false
      → let m' = handle show_nat show_name i m in
        (m'.shell ≡ m.shell) × (m'.kernel.overlay ≡ m.kernel.overlay)
  unfolding handle timer_interrupt_handler keyboard_interrupt_handler
  handle-early tick m early = (refl, (on_tick-Ticked show_nat show_name m.kernel).overlay)
  handle-early (key scancode) m early =
      let same =
        deliver-early (Keyboard.on_interrupt m.kernel.keyboard scancode).0 m.shell
          (record m.kernel { keyboard = (Keyboard.on_interrupt m.kernel.keyboard scancode).1 })
          early in
      (ap (λ r. r.0) same, ap (λ r. r.1.overlay) same)

  run-early :
      (is : List Interrupt) (m : Machine V)
      → m.shell.initialized ≡ false
      → let m' = run show_nat show_name is m in
        (m'.shell ≡ m.shell) × (m'.kernel.overlay ≡ m.kernel.overlay)
  unfolding run
  run-early [] m early = (refl, refl)
  run-early (i ∷ is) m early =
      let (same, kept) = handle-early i m early in
      let (rest, later) = run-early is (handle show_nat show_name i m) (rw same early) in
      (rest ∙ same, later ∙ kept)

  -- Interrupts before the shell is initialized.
  pub run-At :
      (is : List Interrupt) {m : Machine V} {st : Scheduler.Statics V} {t : ℕ} {fs : Frames.Statics}
      {h : Heap.BumpAllocator} {fb : Option FramebufferInfo} {kb pics : Bool}
      {ports : List PortWrite}
      → At st t fs h fb kb pics ports m
      → At
          (ticked (timers is) st)
          (t + timers is)
          fs
          h
          fb
          kb
          pics
          (ports ++ acknowledged pics (length is))
          (run show_nat show_name is m)
  run-At is {m} {t = t} at =
      let r = run-Ran show_nat show_name is m (rw at.ticks_are (mod-lt _ (omega arith))) in
      record {
        scheduler_is = r.scheduler ∙ ap (ticked (timers is)) at.scheduler_is;
        ticks_are = r.ticks ∙ ap (λ n. (n + timers is) % u64_mod) at.ticks_are ∙ mod-add-mod _ _ _;
        frames_are = r.frames ∙ at.frames_are;
        heap_is = r.heap ∙ at.heap_is;
        framebuffer_is = r.framebuffer ∙ at.framebuffer_is;
        keyboard_is = r.keyboard_initialized ∙ at.keyboard_is;
        pics_are = r.pics_initialized ∙ at.pics_are;
        ports_are = r.ports ∙ ap₂ (λ w b. w ++ acknowledged b (length is)) at.ports_are at.pics_are;
        shell_is = (run-early is m (ap (λ s. s.initialized) at.shell_is)).0 ∙ at.shell_is;
        overlay_is = (run-early is m (ap (λ s. s.initialized) at.shell_is)).1 ∙ at.overlay_is;
      }

  -- The same, counting on.
  pub run-At-counted :
      (is : List Interrupt) (st : Scheduler.Statics V) (k n : ℕ) (ports : List PortWrite)
      {m : Machine V} {t : ℕ} {fs : Frames.Statics} {h : Heap.BumpAllocator}
      {fb : Option FramebufferInfo} {kb : Bool}
      → At (ticked k st) t fs h fb kb true (ports ++ acknowledgements n) m
      → At
          (ticked (k + timers is) st)
          (t + timers is)
          fs
          h
          fb
          kb
          true
          (ports ++ acknowledgements (n + length is))
          (run show_nat show_name is m)
  run-At-counted is st k n ports at =
      let r = run-At is at in
      record {
        scheduler_is = r.scheduler_is ∙ ticked_add k (timers is) st;
        ticks_are = r.ticks_are;
        frames_are = r.frames_are;
        heap_is = r.heap_is;
        framebuffer_is = r.framebuffer_is;
        keyboard_is = r.keyboard_is;
        pics_are = r.pics_are;
        ports_are =
            r.ports_are
            ∙ append_assoc ports (acknowledgements n) (acknowledgements (length is))
            ∙ ap (◌++◌ ports) (acknowledged_add true n (length is));
        shell_is = r.shell_is;
        overlay_is = r.overlay_is;
      }
