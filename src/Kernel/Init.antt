-- ===== src/Kernel/Init.antt =====
-- kernel/src/core/init.rs and what it calls. The descriptor tables, which it loads first, are not
-- modelled. `initialize` takes no interrupt in between, `initialize_among` any.
use aetheros_rust_project.Prelude.{
  ℕ, true, false, List, [], ◌++◌, Option, none, some, if◌then◌else◌,
}
use aetheros_rust_project.Prelude.Text.{Text, codes}
use aetheros_rust_project.BootInfo.{BootInfo, FramebufferInfo}
use aetheros_rust_project.Memory.FrameAllocator as Frames
use aetheros_rust_project.Memory.Heap
use aetheros_rust_project.Task.Scheduler
use aetheros_rust_project.Fs.Vfs.{initial_overlay}
use aetheros_rust_project.Drivers.Keyboard
use aetheros_rust_project.Arch.Vga.{Screen}
use aetheros_rust_project.Arch.Interrupts
use aetheros_rust_project.Shell
use aetheros_rust_project.Shell.{Kernel, println, redraw_on}
use aetheros_rust_project.Kernel.{Machine, Interrupt, run}

-- The statics as the kernel image has them.
abbrev pub at_boot : (V : Type 0) → Screen → Machine V
at_boot V screen = record {
  kernel = record {
    console = [];
    screen = screen;
    framebuffer = none;
    keyboard = Keyboard.at_boot;
    scheduler = Scheduler.initial_statics V;
    frames = record { allocator = none; usable_frame_count = 0; usable_range_count = 0 };
    heap = Heap.new;
    ticks = 0;
    overlay = initial_overlay;
  };
  shell = Shell.new;
  vfs_initialized = false;
  pics_initialized = false;
  ports = [];
}

module _ {V : Type 0} (virt_addr : ℕ → V) (heap_space saved_mask1 saved_mask2 : ℕ)
    (show_nat show_hex : ℕ → Text) (show_name : Option Text → Text) where
  abbrev say : Text → Kernel V → Kernel V
  say text k = println show_nat show_name text k

  abbrev initialize_interrupts : Machine V → Machine V
  initialize_interrupts m = record m {
    ports = m.ports ++ Interrupts.init saved_mask1 saved_mask2;
    pics_initialized = true;
  }

  -- `memory::initialize`
  unfoldable pub initialize_memory : BootInfo → Kernel V → Kernel V
  initialize_memory b k = record k {
    frames = Frames.initialize b k.frames;
    heap = Heap.initialize k.heap heap_space Heap.heap_size;
  }

  -- `task::initialize`
  abbrev pub initialize_tasks : Kernel V → Kernel V
  initialize_tasks k = record k { scheduler = Scheduler.initialize virt_addr k.scheduler }

  -- `initialize` of drivers/timer.rs
  unfoldable pub initialize_timer : Kernel V → Kernel V
  initialize_timer k =
      say (codes "AetherOS: PIT timer initialized at 100 Hz") (record k { ticks = 0 })

  -- `initialize` of drivers/keyboard.rs
  unfoldable pub initialize_keyboard : Kernel V → Kernel V
  initialize_keyboard k =
      say (codes "AetherOS: keyboard driver initialized")
        (record k { keyboard = Keyboard.initialize k.keyboard })

  -- `initialize` of drivers/framebuffer.rs
  unfoldable pub initialize_framebuffer : Option FramebufferInfo → Kernel V → Kernel V
  initialize_framebuffer none k =
      say (codes "AetherOS: no framebuffer available, serial output only") k
  initialize_framebuffer (some f) k =
      redraw_on show_nat show_name (some f) (record k { framebuffer = some f })

  -- `fs::initialize`, of which the initramfs is constant; `initialize` of fs/vfs.rs acts once.
  unfoldable pub initialize_fs : Machine V → Machine V
  initialize_fs m = if m.vfs_initialized then m else record m {
    kernel = record m.kernel { overlay = initial_overlay };
    vfs_initialized = true;
  }

  unfoldable pub initialize_shell : Machine V → Machine V
  initialize_shell m =
      let r = Shell.initialize show_nat show_name m.shell m.kernel in
      record m { shell = r.0; kernel = r.1 }

  -- The messages at the end.
  unfoldable pub report : BootInfo → Kernel V → Kernel V
  report b k =
      let framebuffer : Text = elim b.framebuffer [
        | none ↦ codes "unavailable"
        | some f ↦ codes "available"
      ] in
      let k₁ = say (codes "AetherOS: kernel initialized") k in
      let k₂ = say (codes "AetherOS: HHDM offset = " ++ show_hex b.hhdm_offset) k₁ in
      let k₃ = say (codes "AetherOS: memory map entries = " ++ show_nat b.memory_map_entries) k₂ in
      let k₄ = say (codes "AetherOS: framebuffer = " ++ framebuffer) k₃ in
      let k₅ =
        say (codes "AetherOS: usable frames discovered = " ++ show_nat k.frames.usable_frame_count)
          k₄ in
      let k₆ =
        say (codes "AetherOS: usable physical ranges = " ++ show_nat k.frames.usable_range_count)
          k₅ in
      let k₇ = say (codes "AetherOS: kernel heap bytes = " ++ show_nat Heap.heap_size) k₆ in
      let k₈ = say (codes "AetherOS: kernel heap used = " ++ show_nat (Heap.heap_used k.heap)) k₇ in
      let k₉ = say (codes "AetherOS: scheduler tasks = " ++ show_nat k.scheduler.task_count) k₈ in
      let current = show_name (Scheduler.current_task_name k.scheduler) in
      let l₁ = say (codes "AetherOS: current task = " ++ current) k₉ in
      let l₂ = say (codes "AetherOS: scheduler model = " ++ Scheduler.scheduling_model) l₁ in
      say (codes "AetherOS: interrupts enabled") l₂

  abbrev pub on_kernel : (Kernel V → Kernel V) → Machine V → Machine V
  on_kernel f m = record m { kernel = f m.kernel }

  -- `initialize` up to the keyboard.
  unfoldable pub initialize_core : BootInfo → Machine V → Machine V
  initialize_core b m =
      let m₁ = on_kernel (initialize_memory b) (initialize_interrupts m) in
      let m₂ = on_kernel initialize_tasks m₁ in
      on_kernel initialize_keyboard (on_kernel initialize_timer m₂)

  unfoldable pub initialize : BootInfo → Machine V → Machine V
  unfolding initialize_core
  initialize b m =
      let m₁ = on_kernel (initialize_framebuffer b.framebuffer) (initialize_core b m) in
      on_kernel (report b) (initialize_shell (initialize_fs m₁))

  -- `initialize` with the interrupts that arrive between its calls: `a 0` once they are enabled, `a 1`
  -- once `INITIALIZED` is set, and so on.
  unfoldable pub initialize_among : (ℕ → List Interrupt) → BootInfo → Machine V → Machine V
  initialize_among a b m =
      let go = run show_nat show_name in
      let m₀ = record m { ports = m.ports ++ Interrupts.init saved_mask1 saved_mask2 } in
      let m₁ = record (go (a 0) m₀) { pics_initialized = true } in
      let m₂ = on_kernel (initialize_memory b) (go (a 1) m₁) in
      let m₃ = on_kernel initialize_tasks (go (a 2) m₂) in
      let m₄ = on_kernel initialize_timer (go (a 3) m₃) in
      let m₅ = on_kernel initialize_keyboard (go (a 4) m₄) in
      let m₆ = on_kernel (initialize_framebuffer b.framebuffer) (go (a 5) m₅) in
      let m₇ = initialize_shell (go (a 7) (initialize_fs (go (a 6) m₆))) in
      on_kernel (report b) (go (a 8) m₇)
