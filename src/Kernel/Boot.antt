-- ===== src/Kernel/Boot.antt =====
-- The kernel from kernel/src/core/init.rs on: what `initialize` leaves, and what interrupts and
-- system calls find.
use aetheros_rust_project.Prelude.{
  ℕ, ◌%◌, ◌≡◌, refl, ap, true, List, Option, none, some, arith, length,
}
use aetheros_rust_project.Prelude.Text.{Text}
use aetheros_rust_project.Prelude.Words.{u64_mod}
use aetheros_rust_project.BootInfo.{BootInfo, FramebufferInfo}
use aetheros_rust_project.Memory.FrameAllocator as Frames
use aetheros_rust_project.Memory.Heap
use aetheros_rust_project.Memory.Heap.Used.{heap_used-initialize}
use aetheros_rust_project.Task.Scheduler.Start.{HasTurn, started, started-HasTurn}
use aetheros_rust_project.Drivers.Keyboard
use aetheros_rust_project.Arch.Vga.{Screen}
use aetheros_rust_project.Arch.Interrupts
use aetheros_rust_project.Shell
use aetheros_rust_project.Shell.{Shell, Kernel}
use aetheros_rust_project.Shell.Keys.{Keeps, redraw_on-Keeps}
use aetheros_rust_project.Kernel.{Machine, Interrupt, run}
use aetheros_rust_project.Kernel.Init.{
  at_boot, initialize, initialize_core, initialize_memory, initialize_timer, initialize_keyboard,
  initialize_framebuffer, initialize_fs, initialize_shell, report,
}
use aetheros_rust_project.Kernel.Run.{Ran, run-Ran, timers}
use aetheros_rust_project.Kernel.Syscall.{
  Syscall, write_debug, query_ticks, query_task_count, query_heap_usage, query_usable_frames,
  query_execution_mode, query_address_space_kind, dispatch,
}

abbrev pub no_frames : Frames.Statics
no_frames = record { allocator = none; usable_frame_count = 0; usable_range_count = 0 }

-- `n` timer interrupts after boot.
abbrev pub expected : (b : BootInfo) → Syscall → (n : ℕ) → ℕ
expected b write_debug n = 0
expected b query_ticks n = n % u64_mod
expected b query_task_count n = 2
expected b query_heap_usage n = 0
expected b query_usable_frames n = (Frames.initialize b no_frames).usable_frame_count
expected b query_execution_mode n = 0
expected b query_address_space_kind n = 0

module _ {V : Type 0} (virt_addr : ℕ → V) (heap_space saved_mask1 saved_mask2 : ℕ)
    (show_nat show_hex : ℕ → Text) (show_name : Option Text → Text) where
  -- What `initialize` leaves of the statics, but for the console and the screen.
  pub record Started (b : BootInfo) (m : Machine V) : Type 0 where
    pub scheduler : m.kernel.scheduler ≡ started virt_addr
    pub frames : m.kernel.frames ≡ Frames.initialize b no_frames
    pub heap : m.kernel.heap ≡ Heap.initialize Heap.new heap_space Heap.heap_size
    pub framebuffer : m.kernel.framebuffer ≡ b.framebuffer
    pub keyboard : m.kernel.keyboard ≡ Keyboard.initialize Keyboard.at_boot
    pub ticks : m.kernel.ticks ≡ 0
    pub shell : m.shell ≡ record Shell.new { initialized = true }
    pub pics_initialized : m.pics_initialized ≡ true
    pub ports : m.ports ≡ Interrupts.init saved_mask1 saved_mask2

  abbrev booted : BootInfo → Screen → Machine V
  booted b screen =
      initialize virt_addr heap_space saved_mask1 saved_mask2 show_nat show_hex show_name b
        (at_boot V screen)

  pub framebuffer_kept :
      (f : Option FramebufferInfo) (k : Kernel V)
      → k.framebuffer ≡ none
      → Keeps
          (record k { framebuffer = f })
          (initialize_framebuffer virt_addr heap_space saved_mask1 saved_mask2 show_nat show_hex
            show_name f k)
  unfolding initialize_framebuffer
  framebuffer_kept none k fresh = record {
    framebuffer = fresh;
    keyboard = refl;
    scheduler = refl;
    frames = refl;
    heap = refl;
    ticks = refl;
  }
  framebuffer_kept (some f) k fresh =
      redraw_on-Keeps show_nat show_name (some f) (record k { framebuffer = some f })

  -- What `initialize` leaves on the statics of the kernel image, for any boot information.
  pub initialize-Started : (b : BootInfo) (screen : Screen) → Started b (booted b screen)
  unfolding initialize initialize_core initialize_memory initialize_timer initialize_keyboard
      initialize_fs initialize_shell report Shell.initialize Shell.prompt initialize_framebuffer
  initialize-Started b screen =
      let k =
        (initialize_core virt_addr heap_space saved_mask1 saved_mask2 show_nat show_hex show_name b
          (at_boot V screen)).kernel in
      let f = framebuffer_kept b.framebuffer k refl in
      record {
        scheduler = f.scheduler;
        frames = f.frames;
        heap = f.heap;
        framebuffer = f.framebuffer;
        keyboard = f.keyboard;
        ticks = f.ticks;
        shell = refl;
        pics_initialized = refl;
        ports = refl;
      }

  -- After boot and any interrupts, the idle and the init task take turns with each timer
  -- interrupt, and every system call gives the result `expected`, which no key event has an effect on.
  pub dispatch_after_boot :
      (b : BootInfo) (screen : Screen) (is : List Interrupt) (call : Syscall) (arg0 : ℕ)
      → let m = run show_nat show_name is (booted b screen) in
        HasTurn (timers is % 2) m.kernel.scheduler
        × ((dispatch show_nat show_name call arg0 m.kernel).0 ≡ expected b call (timers is))
  unfolding dispatch
  dispatch_after_boot b screen is call arg0 =
      let s = initialize-Started b screen in
      let r = run-Ran show_nat show_name is (booted b screen) (rw s.ticks (omega arith)) in
      let turn : HasTurn (timers is % 2)
          (run show_nat show_name is (booted b screen)).kernel.scheduler =
        rw (r.scheduler, s.scheduler) (started-HasTurn virt_addr (timers is)) in
      (turn, results call turn r s)
    where
      results :
          (call : Syscall) {m m' : Machine V}
          → HasTurn (timers is % 2) m'.kernel.scheduler
          → Ran (timers is) (length is) m m'
          → Started b m
          → (dispatch show_nat show_name call arg0 m'.kernel).0 ≡ expected b call (timers is)
      results write_debug turn r s = refl
      results query_ticks turn r s = rw (r.ticks, s.ticks) (ap (λ t. t % u64_mod) (omega arith))
      results query_task_count turn r s = turn.task_count
      results query_heap_usage turn r s =
          rw (r.heap, s.heap) (heap_used-initialize Heap.new heap_space Heap.heap_size)
      results query_usable_frames turn r s = rw (r.frames, s.frames) refl
      results query_execution_mode turn r s = rw turn.mode refl
      results query_address_space_kind turn r s = rw turn.kind refl
