-- ===== src/Kernel/Among/Phases.antt =====
-- The calls of kernel/src/core/init.rs before the one of the shell, with the interrupts between them.
use aetheros_rust_project.Prelude.{ℕ, ◌+◌, Bool, true, false, List, ◌++◌, Option, none, length}
use aetheros_rust_project.Prelude.Text.{Text}
use aetheros_rust_project.BootInfo.{BootInfo, FramebufferInfo}
use aetheros_rust_project.Memory.FrameAllocator as Frames
use aetheros_rust_project.Memory.Heap
use aetheros_rust_project.Task.Scheduler
use aetheros_rust_project.Task.Scheduler.Start.{started, ticked, ticked-initial_statics}
use aetheros_rust_project.Arch.Interrupts
use aetheros_rust_project.Arch.Serial.{PortWrite}
use aetheros_rust_project.Kernel.Boot.{no_frames}
use aetheros_rust_project.Kernel.{Machine, Interrupt}
use aetheros_rust_project.Kernel.Run.{timers, acknowledged, acknowledgements}
use aetheros_rust_project.Kernel.Among.Early.{
  At, pics-At, run-At, run-At-counted, timers_in, arrivals_in,
}
use aetheros_rust_project.Kernel.Among.Calls.{
  go, memory_on, tasks_on, timer_on, keyboard_on, framebuffer_on, fs_on, memory-At, tasks-At,
  timer-At, keyboard-At, framebuffer-At, fs-At,
}

module _ {V : Type 0} (virt_addr : ℕ → V) (heap_space saved_mask1 saved_mask2 : ℕ)
    (show_nat show_hex : ℕ → Text) (show_name : Option Text → Text) where
  -- Interrupts before there are tasks.
  run-At-untasked :
      (is : List Interrupt) {m : Machine V} {t : ℕ} {fs : Frames.Statics} {h : Heap.BumpAllocator}
      {fb : Option FramebufferInfo} {kb pics : Bool} {ports : List PortWrite}
      → At (Scheduler.initial_statics V) t fs h fb kb pics ports m
      → At
          (Scheduler.initial_statics V)
          (t + timers is)
          fs
          h
          fb
          kb
          pics
          (ports ++ acknowledged pics (length is))
          (go virt_addr heap_space saved_mask1 saved_mask2 show_nat show_hex show_name is m)
  run-At-untasked is at =
      rw (← ticked-initial_statics V (timers is)) (run-At show_nat show_name is at)

  run-At-acknowledged :
      (is : List Interrupt) (n : ℕ) (ports : List PortWrite) {m : Machine V} {t : ℕ}
      {fs : Frames.Statics} {h : Heap.BumpAllocator} {fb : Option FramebufferInfo} {kb : Bool}
      → At (Scheduler.initial_statics V) t fs h fb kb true (ports ++ acknowledgements n) m
      → At
          (Scheduler.initial_statics V)
          (t + timers is)
          fs
          h
          fb
          kb
          true
          (ports ++ acknowledgements (n + length is))
          (go virt_addr heap_space saved_mask1 saved_mask2 show_nat show_hex show_name is m)
  run-At-acknowledged is n ports at =
      rw (← ticked-initial_statics V (0 + timers is))
        (run-At-counted show_nat show_name is (Scheduler.initial_statics V) 0 n ports at)

  -- Up to the tasks.
  pub untasked-At :
      (a : ℕ → List Interrupt) (b : BootInfo) (m : Machine V)
      → At
          (Scheduler.initial_statics V)
          0
          no_frames
          Heap.new
          none
          false
          false
          (Interrupts.init saved_mask1 saved_mask2)
          m
      → let m₁ =
          record (go virt_addr heap_space saved_mask1 saved_mask2 show_nat show_hex show_name
            (a 0)
            m) { pics_initialized = true } in
        let m₂ =
          go virt_addr heap_space saved_mask1 saved_mask2 show_nat show_hex show_name (a 1) m₁ in
        let m₃ =
          go virt_addr heap_space saved_mask1 saved_mask2 show_nat show_hex show_name
            (a 2)
            (record m₂ {
              kernel =
                  memory_on virt_addr heap_space saved_mask1 saved_mask2 show_nat show_hex show_name
                    b m₂.kernel;
            }) in
        (t : ℕ) × At
          (Scheduler.initial_statics V)
          t
          (Frames.initialize b no_frames)
          (Heap.initialize Heap.new heap_space Heap.heap_size)
          none
          false
          true
          (Interrupts.init saved_mask1 saved_mask2 ++ acknowledgements (arrivals_in a 1 2))
          m₃
  untasked-At a b m at =
      let boot = Interrupts.init saved_mask1 saved_mask2 in
      let at₁ = pics-At (run-At-untasked (a 0) at) in
      let at₂ = run-At-acknowledged (a 1) 0 boot at₁ in
      (
        _,
        run-At-acknowledged (a 2) (0 + length (a 1)) boot (
            memory-At virt_addr heap_space saved_mask1 saved_mask2 show_nat show_hex show_name b
              at₂),
      )

  -- From the tasks to the shell.
  pub tasked-At :
      (a : ℕ → List Interrupt) (b : BootInfo) (m : Machine V) {t : ℕ} {fs : Frames.Statics}
      {h : Heap.BumpAllocator} (ports : List PortWrite)
      → At
          (Scheduler.initial_statics V)
          t
          fs
          h
          none
          false
          true
          (ports ++ acknowledgements (arrivals_in a 1 2))
          m
      → let m₃ = record m {
        kernel =
            tasks_on virt_addr heap_space saved_mask1 saved_mask2 show_nat show_hex show_name
              m.kernel;
      } in
        let m₄ =
          go virt_addr heap_space saved_mask1 saved_mask2 show_nat show_hex show_name (a 3) m₃ in
        let m₅ =
          go virt_addr heap_space saved_mask1 saved_mask2 show_nat show_hex show_name
            (a 4)
            (record m₄ {
              kernel =
                  timer_on virt_addr heap_space saved_mask1 saved_mask2 show_nat show_hex show_name
                    m₄.kernel;
            }) in
        let m₆ =
          go virt_addr heap_space saved_mask1 saved_mask2 show_nat show_hex show_name
            (a 5)
            (record m₅ {
              kernel =
                  keyboard_on virt_addr heap_space saved_mask1 saved_mask2 show_nat show_hex
                    show_name m₅.kernel;
            }) in
        let m₇ =
          go virt_addr heap_space saved_mask1 saved_mask2 show_nat show_hex show_name
            (a 6)
            (record m₆ {
              kernel =
                  framebuffer_on virt_addr heap_space saved_mask1 saved_mask2 show_nat show_hex
                    show_name b.framebuffer m₆.kernel;
            }) in
        At
          (ticked (timers_in a 3 5) (started virt_addr))
          (timers_in a 4 4)
          fs
          h
          b.framebuffer
          true
          true
          (ports ++ acknowledgements (arrivals_in a 1 7))
          (go virt_addr heap_space saved_mask1 saved_mask2 show_nat show_hex show_name
            (a 7)
            (fs_on virt_addr heap_space saved_mask1 saved_mask2 show_nat show_hex show_name m₇))
  tasked-At a b m ports at =
      let s = started virt_addr in
      let at₃ =
        run-At-counted show_nat show_name (a 3) s 0 (arrivals_in a 1 2) ports
          (tasks-At virt_addr heap_space saved_mask1 saved_mask2 show_nat show_hex show_name at) in
      let at₄ =
        run-At-counted show_nat show_name (a 4) s (timers_in a 3 1) (arrivals_in a 1 3) ports
          (timer-At virt_addr heap_space saved_mask1 saved_mask2 show_nat show_hex show_name at₃) in
      let at₅ =
        run-At-counted show_nat show_name (a 5) s (timers_in a 3 2) (arrivals_in a 1 4) ports (
          keyboard-At virt_addr heap_space saved_mask1 saved_mask2 show_nat show_hex show_name
            at₄) in
      let at₆ =
        run-At-counted show_nat show_name (a 6) s (timers_in a 3 3) (arrivals_in a 1 5) ports (
          framebuffer-At virt_addr heap_space saved_mask1 saved_mask2 show_nat show_hex show_name
            b.framebuffer at₅) in
      run-At-counted show_nat show_name (a 7) s (timers_in a 3 4) (arrivals_in a 1 6) ports
        (fs-At virt_addr heap_space saved_mask1 saved_mask2 show_nat show_hex show_name at₆)
