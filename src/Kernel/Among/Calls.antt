-- ===== src/Kernel/Among/Calls.antt =====
-- What each call of kernel/src/core/init.rs does before the shell is initialized.
use aetheros_rust_project.Prelude.{ℕ, ◌≡◌, refl, ap, ◌∙◌, Bool, true, List, Option, none, some}
use aetheros_rust_project.Prelude.Text.{Text}
use aetheros_rust_project.BootInfo.{BootInfo, FramebufferInfo}
use aetheros_rust_project.Memory.FrameAllocator as Frames
use aetheros_rust_project.Memory.Heap
use aetheros_rust_project.Task.Scheduler
use aetheros_rust_project.Drivers.Keyboard
use aetheros_rust_project.Arch.Serial.{PortWrite}
use aetheros_rust_project.Shell.{Kernel}
use aetheros_rust_project.Kernel.Boot.{framebuffer_kept}
use aetheros_rust_project.Kernel.{Machine, Interrupt, run}
use aetheros_rust_project.Kernel.Init.{
  initialize_memory, initialize_timer, initialize_keyboard, initialize_framebuffer, initialize_fs,
  initialize_tasks,
}
use aetheros_rust_project.Kernel.Among.Early.{At, if-At}
use aetheros_rust_project.Shell.Keys.{redraw_on_overlay}

module _ {V : Type 0} (virt_addr : ℕ → V) (heap_space saved_mask1 saved_mask2 : ℕ)
    (show_nat show_hex : ℕ → Text) (show_name : Option Text → Text) where
  abbrev pub go : List Interrupt → Machine V → Machine V
  go is m = run show_nat show_name is m

  abbrev pub memory_on : BootInfo → Kernel V → Kernel V
  memory_on b k =
      initialize_memory virt_addr heap_space saved_mask1 saved_mask2 show_nat show_hex show_name b k

  abbrev pub tasks_on : Kernel V → Kernel V
  tasks_on k =
      initialize_tasks virt_addr heap_space saved_mask1 saved_mask2 show_nat show_hex show_name k

  abbrev pub timer_on : Kernel V → Kernel V
  timer_on k =
      initialize_timer virt_addr heap_space saved_mask1 saved_mask2 show_nat show_hex show_name k

  abbrev pub keyboard_on : Kernel V → Kernel V
  keyboard_on k =
      initialize_keyboard virt_addr heap_space saved_mask1 saved_mask2 show_nat show_hex show_name k

  abbrev pub framebuffer_on : Option FramebufferInfo → Kernel V → Kernel V
  framebuffer_on f k =
      initialize_framebuffer virt_addr heap_space saved_mask1 saved_mask2 show_nat show_hex
        show_name f k

  abbrev pub fs_on : Machine V → Machine V
  fs_on m = initialize_fs virt_addr heap_space saved_mask1 saved_mask2 show_nat show_hex show_name m

  pub memory-At :
      (b : BootInfo) {m : Machine V} {st : Scheduler.Statics V} {t : ℕ} {fs : Frames.Statics}
      {h : Heap.BumpAllocator} {fb : Option FramebufferInfo} {kb pics : Bool}
      {ports : List PortWrite}
      → At st t fs h fb kb pics ports m
      → At st t
          (Frames.initialize b fs)
          (Heap.initialize h heap_space Heap.heap_size)
          fb
          kb
          pics
          ports
          (record m { kernel = memory_on b m.kernel })
  unfolding initialize_memory
  memory-At b at = record {
    scheduler_is = at.scheduler_is;
    ticks_are = at.ticks_are;
    frames_are = ap (Frames.initialize b) at.frames_are;
    heap_is = ap (λ h. Heap.initialize h heap_space Heap.heap_size) at.heap_is;
    framebuffer_is = at.framebuffer_is;
    keyboard_is = at.keyboard_is;
    pics_are = at.pics_are;
    ports_are = at.ports_are;
    shell_is = at.shell_is;
    overlay_is = at.overlay_is;
  }

  pub tasks-At :
      {m : Machine V} {st : Scheduler.Statics V} {t : ℕ} {fs : Frames.Statics}
      {h : Heap.BumpAllocator} {fb : Option FramebufferInfo} {kb pics : Bool}
      {ports : List PortWrite}
      → At st t fs h fb kb pics ports m
      → At
          (Scheduler.initialize virt_addr st)
          t
          fs
          h
          fb
          kb
          pics
          ports
          (record m { kernel = tasks_on m.kernel })
  tasks-At at = record {
    scheduler_is = ap (Scheduler.initialize virt_addr) at.scheduler_is;
    ticks_are = at.ticks_are;
    frames_are = at.frames_are;
    heap_is = at.heap_is;
    framebuffer_is = at.framebuffer_is;
    keyboard_is = at.keyboard_is;
    pics_are = at.pics_are;
    ports_are = at.ports_are;
    shell_is = at.shell_is;
    overlay_is = at.overlay_is;
  }

  -- The timer and then, after more interrupts, the keyboard.
  pub timer-At :
      {m : Machine V} {st : Scheduler.Statics V} {t : ℕ} {fs : Frames.Statics}
      {h : Heap.BumpAllocator} {fb : Option FramebufferInfo} {kb pics : Bool}
      {ports : List PortWrite}
      → At st t fs h fb kb pics ports m
      → At st 0 fs h fb kb pics ports (record m { kernel = timer_on m.kernel })
  unfolding initialize_timer
  timer-At at = record {
    scheduler_is = at.scheduler_is;
    ticks_are = refl;
    frames_are = at.frames_are;
    heap_is = at.heap_is;
    framebuffer_is = at.framebuffer_is;
    keyboard_is = at.keyboard_is;
    pics_are = at.pics_are;
    ports_are = at.ports_are;
    shell_is = at.shell_is;
    overlay_is = at.overlay_is;
  }

  pub keyboard-At :
      {m : Machine V} {st : Scheduler.Statics V} {t : ℕ} {fs : Frames.Statics}
      {h : Heap.BumpAllocator} {fb : Option FramebufferInfo} {kb pics : Bool}
      {ports : List PortWrite}
      → At st t fs h fb kb pics ports m
      → At st t fs h fb true pics ports (record m { kernel = keyboard_on m.kernel })
  unfolding initialize_keyboard Keyboard.initialize
  keyboard-At at = record {
    scheduler_is = at.scheduler_is;
    ticks_are = at.ticks_are;
    frames_are = at.frames_are;
    heap_is = at.heap_is;
    framebuffer_is = at.framebuffer_is;
    keyboard_is = refl;
    pics_are = at.pics_are;
    ports_are = at.ports_are;
    shell_is = at.shell_is;
    overlay_is = at.overlay_is;
  }

  framebuffer_overlay :
      (f : Option FramebufferInfo) (k : Kernel V) → (framebuffer_on f k).overlay ≡ k.overlay
  unfolding initialize_framebuffer
  framebuffer_overlay none k = refl
  framebuffer_overlay (some f) k =
      redraw_on_overlay show_nat show_name (some f) (record k { framebuffer = some f })

  pub framebuffer-At :
      (f : Option FramebufferInfo) {m : Machine V} {st : Scheduler.Statics V} {t : ℕ}
      {fs : Frames.Statics} {h : Heap.BumpAllocator} {kb pics : Bool} {ports : List PortWrite}
      → At st t fs h none kb pics ports m
      → At st t fs h f kb pics ports (record m { kernel = framebuffer_on f m.kernel })
  framebuffer-At f {m} at =
      let c =
        framebuffer_kept virt_addr heap_space saved_mask1 saved_mask2 show_nat show_hex show_name f
          m.kernel at.framebuffer_is in
      record {
        scheduler_is = c.scheduler ∙ at.scheduler_is;
        ticks_are = c.ticks ∙ at.ticks_are;
        frames_are = c.frames ∙ at.frames_are;
        heap_is = c.heap ∙ at.heap_is;
        framebuffer_is = c.framebuffer;
        keyboard_is = ap (λ k. k.initialized) c.keyboard ∙ at.keyboard_is;
        pics_are = at.pics_are;
        ports_are = at.ports_are;
        shell_is = at.shell_is;
        overlay_is = framebuffer_overlay f m.kernel ∙ at.overlay_is;
      }

  pub fs-At :
      {m : Machine V} {st : Scheduler.Statics V} {t : ℕ} {fs : Frames.Statics}
      {h : Heap.BumpAllocator} {fb : Option FramebufferInfo} {kb pics : Bool}
      {ports : List PortWrite}
      → At st t fs h fb kb pics ports m
      → At st t fs h fb kb pics ports (fs_on m)
  unfolding initialize_fs
  fs-At {m} at = if-At m.vfs_initialized at (record {
    scheduler_is = at.scheduler_is;
    ticks_are = at.ticks_are;
    frames_are = at.frames_are;
    heap_is = at.heap_is;
    framebuffer_is = at.framebuffer_is;
    keyboard_is = at.keyboard_is;
    pics_are = at.pics_are;
    ports_are = at.ports_are;
    shell_is = at.shell_is;
    overlay_is = refl;
  })
