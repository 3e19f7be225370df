-- ===== src/Kernel/Syscall.antt =====
-- kernel/src/syscall/table.rs and handlers.rs.
use aetheros_rust_project.Prelude.{ℕ, ◌++◌, Option, none, some}
use aetheros_rust_project.Prelude.Text.{Text, codes}
use aetheros_rust_project.Prelude.Words.{u64_max}
use aetheros_rust_project.Memory.AddressSpace.{AddressSpaceKind, kernel_only, kernel_and_user}
use aetheros_rust_project.Memory.Heap
use aetheros_rust_project.Task.Process.{ExecutionMode, kernel, user}
use aetheros_rust_project.Task.Scheduler
use aetheros_rust_project.Shell.{Kernel, println}

pub data Syscall : Type 0 where
  write_debug query_ticks query_task_count query_heap_usage query_usable_frames : Syscall
  query_execution_mode query_address_space_kind : Syscall

abbrev pub mode_code : Option ExecutionMode → ℕ
mode_code (some kernel) = 0
mode_code (some user) = 1
mode_code none = u64_max

abbrev pub kind_code : Option AddressSpaceKind → ℕ
kind_code (some kernel_only) = 0
kind_code (some kernel_and_user) = 1
kind_code none = u64_max

module _ {V : Type 0} (show_nat : ℕ → Text) (show_name : Option Text → Text) where
  -- The result, and the kernel afterwards.
  unfoldable pub dispatch : Syscall → ℕ → Kernel V → ℕ × Kernel V
  dispatch write_debug arg0 k =
      (0, println show_nat show_name (codes "AetherOS syscall debug: " ++ show_nat arg0) k)
  dispatch query_ticks arg0 k = (k.ticks, k)
  dispatch query_task_count arg0 k = (k.scheduler.task_count, k)
  dispatch query_heap_usage arg0 k = (Heap.heap_used k.heap, k)
  dispatch query_usable_frames arg0 k = (k.frames.usable_frame_count, k)
  dispatch query_execution_mode arg0 k =
      (mode_code (Scheduler.current_task_execution_mode k.scheduler), k)
  dispatch query_address_space_kind arg0 k =
      (kind_code (Scheduler.current_task_address_space_kind k.scheduler), k)
