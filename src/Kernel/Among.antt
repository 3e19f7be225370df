-- ===== src/Kernel/Among.antt =====
-- kernel/src/core/init.rs with the interrupts that arrive between its calls: they are enabled
-- by the third of them.
pub mod Early
mod Calls
mod Phases
mod Shown
use aetheros_rust_project.Prelude.{
  [], ◌∙◌, Bool, ℕ, ◌+◌, ◌%◌, ◌≡◌, refl, subst, sym, ap, true, false, List, ◌++◌, Option, arith,
  All,
}
use aetheros_rust_project.Prelude.Text.{Text}
use aetheros_rust_project.Prelude.Words.{u64_mod}
use aetheros_rust_project.BootInfo.{BootInfo, FramebufferInfo}
use aetheros_rust_project.Memory.FrameAllocator as Frames
use aetheros_rust_project.Memory.Heap
use aetheros_rust_project.Task.Scheduler
use aetheros_rust_project.Task.Scheduler.Start.{
  started, started-IsValid, first-HasTurn, ticked, ticked-IsValid, ticked-HasCurrent,
}
use aetheros_rust_project.Drivers.Keyboard
use aetheros_rust_project.Arch.Vga.{Screen}
use aetheros_rust_project.Arch.Interrupts
use aetheros_rust_project.Arch.Serial.{PortWrite}
use aetheros_rust_project.Shell
use aetheros_rust_project.Shell.{Shell}
use aetheros_rust_project.Shell.Lines as Lines
use aetheros_rust_project.Prelude.Ascii.{IsAscii}
use aetheros_rust_project.Fs.Vfs.Valid.{initial_overlay-IsValid}
use aetheros_rust_project.Kernel.Invariant as Invariant
use aetheros_rust_project.Kernel.Invariant.{IsByte, run-IsValid}
use aetheros_rust_project.Kernel.Typing.{typed, press_all, run-typed}
use aetheros_rust_project.Kernel.Boot.{no_frames}
use aetheros_rust_project.Kernel.{Machine, Interrupt}
use aetheros_rust_project.Kernel.Init.{at_boot, initialize_shell, report, initialize_among}
use aetheros_rust_project.Kernel.Run.{acknowledgements}
use aetheros_rust_project.Kernel.Among.Early.{At, timers_in, arrivals_in}
use aetheros_rust_project.Kernel.Among.Phases.{untasked-At, tasked-At}
use aetheros_rust_project.Kernel.Among.Shown.{go, shell_on, reported, shell-Ready, run-Ready}

-- What `initialize` leaves among the interrupts `a`: the ticks from the tasks' and the timer's
-- initialization on are counted, every interrupt once `INITIALIZED` is set is acknowledged, and the line
-- is what the last interrupts type.
pub record Initialized {V : Type 0} (virt_addr : ℕ → V) (heap_space saved_mask1 saved_mask2 : ℕ)
    (a : ℕ → List Interrupt) (b : BootInfo) (m : Machine V) : Type 0 where
  pub scheduler : m.kernel.scheduler ≡ ticked (timers_in a 3 6) (started virt_addr)
  pub ticks : m.kernel.ticks ≡ timers_in a 4 5 % u64_mod
  pub frames : m.kernel.frames ≡ Frames.initialize b no_frames
  pub heap : m.kernel.heap ≡ Heap.initialize Heap.new heap_space Heap.heap_size
  pub framebuffer : m.kernel.framebuffer ≡ b.framebuffer
  pub keyboard : m.kernel.keyboard.initialized ≡ true
  pub shell : m.shell.initialized ≡ true
  pub line : Lines.IsValid m.shell
  pub typing : (shift : Bool) × (typed m ≡ press_all (a 8) (shift, []))
  pub pics : m.pics_initialized ≡ true
  pub ports :
      m.ports ≡ Interrupts.init saved_mask1 saved_mask2 ++ acknowledgements (arrivals_in a 1 8)

module _ {V : Type 0} (virt_addr : ℕ → V) (heap_space saved_mask1 saved_mask2 : ℕ)
    (show_nat show_hex : ℕ → Text) (show_name : Option Text → Text) where
  shell-IsValid :
      (k : ℕ) {m : Machine V} {t : ℕ} {fs : Frames.Statics} {h : Heap.BumpAllocator}
      {fb : Option FramebufferInfo} {ports : List PortWrite}
      → At (ticked k (started virt_addr)) t fs h fb true true ports m
      → Invariant.IsValid
          (shell_on virt_addr heap_space saved_mask1 saved_mask2 show_nat show_hex show_name m)
  unfolding initialize_shell Shell.initialize Shell.prompt
  shell-IsValid k {m} at =
      let off : m.shell.initialized ≡ false = ap (λ s. s.initialized) at.shell_is in
      let now = ap (λ (s : Shell). record s { initialized = true }) at.shell_is in
      rw off (record {
        scheduler =
            rw at.scheduler_is (ticked-IsValid k (started virt_addr) (started-IsValid virt_addr));
        turn = rw at.scheduler_is (
            ticked-HasCurrent k (started virt_addr) (started-IsValid virt_addr)
              (0, (first-HasTurn virt_addr).current));
        line_fits =
            subst (λ (s : Shell). Lines.IsValid s) (sym now)
              (record { sized = refl; bounded = omega arith });
        line_ascii = subst (λ (s : Shell). IsAscii (Lines.line s)) (sym now) tt;
        overlay = rw at.overlay_is initial_overlay-IsValid;
      })

  shell_typed :
      {m : Machine V} {st : Scheduler.Statics V} {t : ℕ} {fs : Frames.Statics}
      {h : Heap.BumpAllocator} {fb : Option FramebufferInfo} {ports : List PortWrite}
      → At st t fs h fb true true ports m
      → typed (shell_on virt_addr heap_space saved_mask1 saved_mask2 show_nat show_hex show_name m)
        ≡ (m.kernel.keyboard.shift_pressed, [])
  unfolding initialize_shell Shell.initialize Shell.prompt
  shell_typed {m} at =
      let off : m.shell.initialized ≡ false = ap (λ s. s.initialized) at.shell_is in
      rw off (
        ap
          (λ (s : Shell).
            (m.kernel.keyboard.shift_pressed, Lines.line (record s { initialized = true })))
          at.shell_is)

  -- Just before the shell is initialized.
  before_shell :
      (a : ℕ → List Interrupt) (b : BootInfo) (screen : Screen)
      → (m : Machine V) × At
          (ticked (timers_in a 3 5) (started virt_addr))
          (timers_in a 4 4)
          (Frames.initialize b no_frames)
          (Heap.initialize Heap.new heap_space Heap.heap_size)
          b.framebuffer
          true
          true
          (Interrupts.init saved_mask1 saved_mask2 ++ acknowledgements (arrivals_in a 1 7))
          m
        × (initialize_among virt_addr heap_space saved_mask1 saved_mask2 show_nat show_hex show_name
              a b
              (at_boot V screen)
            ≡ (reported virt_addr heap_space saved_mask1 saved_mask2 show_nat show_hex show_name) b
                (go virt_addr heap_space saved_mask1 saved_mask2 show_nat show_hex show_name (a 8) (
                  shell_on virt_addr heap_space saved_mask1 saved_mask2 show_nat show_hex show_name
                    m)))
  unfolding initialize_among
  before_shell a b screen =
      let boot = Interrupts.init saved_mask1 saved_mask2 in
      let (t, at) =
        untasked-At virt_addr heap_space saved_mask1 saved_mask2 show_nat show_hex show_name a b
          (record (at_boot V screen) { ports = boot })
          (record {
            scheduler_is = refl;
            ticks_are = refl;
            frames_are = refl;
            heap_is = refl;
            framebuffer_is = refl;
            keyboard_is = refl;
            pics_are = refl;
            ports_are = refl;
            shell_is = refl;
            overlay_is = refl;
          }) in
      let at' =
        tasked-At virt_addr heap_space saved_mask1 saved_mask2 show_nat show_hex show_name a b _
          boot at in
      (_, at', refl)

  -- Whatever interrupts arrive between the calls of `initialize`: the scheduler is as it was started but for
  -- a turn for each timer interrupt since the initialization of the tasks; the tick counter counts those since its
  -- own, modulo 2^64; the frame allocator and the heap are as their initialization makes them, and the framebuffer is
  -- the one of the boot information; the keyboard, the controllers and the shell are initialized; the shell's line is within
  -- its buffer and is what the interrupts after the shell's initialization type on an empty line, with Shift up or
  -- down before them; and after the set-up of the controllers each interrupt since `INITIALIZED` is set is acknowledged
  -- once, while the earlier ones are not.
  pub initialize_among-Initialized :
      (a : ℕ → List Interrupt) (b : BootInfo) (screen : Screen)
      → Initialized virt_addr heap_space saved_mask1 saved_mask2 a b (
          initialize_among virt_addr heap_space saved_mask1 saved_mask2 show_nat show_hex show_name
            a b
            (at_boot V screen))
  unfolding report
  initialize_among-Initialized a b screen =
      let (m, at, same) = before_shell a b screen in
      let boot = Interrupts.init saved_mask1 saved_mask2 in
      let last =
        run-Ready virt_addr heap_space saved_mask1 saved_mask2 show_nat show_hex show_name (a 8)
          (started virt_addr) (timers_in a 3 5) (arrivals_in a 1 7) boot
          (shell-Ready virt_addr heap_space saved_mask1 saved_mask2 show_nat show_hex show_name
            at) in
      rw same (record {
        scheduler = last.scheduler_is;
        ticks = last.ticks_are;
        frames = last.frames_are;
        heap = last.heap_is;
        framebuffer = last.framebuffer_is;
        pics = last.pics_are;
        ports = last.ports_are;
        keyboard = last.ready.keyboard;
        shell = last.ready.shell;
        line = last.ready.valid;
        typing =
            let shown =
              shell_on virt_addr heap_space saved_mask1 saved_mask2 show_nat show_hex show_name m in
            let ready =
              shell-Ready virt_addr heap_space saved_mask1 saved_mask2 show_nat show_hex show_name
                at in
            (
              m.kernel.keyboard.shift_pressed,
              (run-typed show_nat show_name (a 8) shown ready.ready).1
                  ∙ ap (press_all (a 8)) (shell_typed at),
            );
      })

  -- Whatever interrupts arrive between the calls of `initialize`, the kernel comes up in a state
  -- that satisfies its invariant, if the keyboard sends bytes after the last call.
  pub initialize_among-IsValid :
      (a : ℕ → List Interrupt) (b : BootInfo) (screen : Screen)
      → All IsByte (a 8)
      → Invariant.IsValid (
          initialize_among virt_addr heap_space saved_mask1 saved_mask2 show_nat show_hex show_name
            a b
            (at_boot V screen))
  unfolding report
  initialize_among-IsValid a b screen bytes =
      let (m, at, same) = before_shell a b screen in
      let v =
        run-IsValid show_nat show_name (a 8)
          (shell_on virt_addr heap_space saved_mask1 saved_mask2 show_nat show_hex show_name m)
          bytes (shell-IsValid (timers_in a 3 5) at) in
      rw same (record {
        scheduler = v.scheduler;
        turn = v.turn;
        line_fits = v.line_fits;
        line_ascii = v.line_ascii;
        overlay = v.overlay;
      })
