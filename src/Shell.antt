-- ===== src/Shell.antt =====
-- kernel/src/shell.rs: the line editor and its commands, with the parts of the kernel that they read
-- or change. `show_nat` and `show_name` stand for the core library's `Display` of a number and
-- `Debug` of an `Option<&str>`, `V` for `VirtAddr` of the x86_64 crate.
pub mod Lines
pub mod Commands
pub mod Keys
pub mod Stored
mod Tests
use mathlib.Core.Option
use aetheros_rust_project.Prelude.{
  ℕ, ◌+◌, ◌-◌, ◌%◌, Bool, true, false, not, List, [], ◌∷◌, ◌++◌, Option, none, some, take, set,
  replicate, ltb, ◌==◌, if◌then◌else◌, bytes_eq,
}
use aetheros_rust_project.Prelude.Text.{Text, codes}
use aetheros_rust_project.Prelude.Str.{
  from_utf8, trim, trim_start, after_white, strip_prefix, split_once,
}
use aetheros_rust_project.BootInfo.{FramebufferInfo}
use aetheros_rust_project.Memory.AddressSpace
use aetheros_rust_project.Memory.FrameAllocator as Frames
use aetheros_rust_project.Memory.Heap
use aetheros_rust_project.Task.Process.{state_label, mode_label}
use aetheros_rust_project.Task.Scheduler
use aetheros_rust_project.Fs.Vfs
use aetheros_rust_project.Fs.Vfs.{Overlay, message, ok, err}
use aetheros_rust_project.Drivers.Keyboard
use aetheros_rust_project.Drivers.Keyboard.{KeyEvent, char, enter, backspace}
use aetheros_rust_project.Arch.Vga.{Screen, render_boot_visual}

abbrev pub max_line_len : ℕ
max_line_len = 128

-- `line_buffer` has 128 bytes.
pub record Shell : Type 0 where
  pub initialized : Bool
  pub line_buffer : Text
  pub len : ℕ

-- `Shell::new`
abbrev pub new : Shell
new = record { initialized = false; line_buffer = replicate max_line_len 0; len = 0 }

-- What `split_whitespace` yields next, and the text behind it.
unfoldable pub span_word : Text → Text × Text
span_word [] = ([], [])
span_word (b ∷ bs) =
    let rest = span_word bs in
    elim (after_white (b ∷ bs)) [ some behind ↦ ([], b ∷ bs) | none ↦ (b ∷ rest.0, rest.1) ]

unfoldable pub next_word : Text → Option (Text × Text)
unfolding span_word
next_word s = elim (trim_start s) [ [] ↦ none | b ∷ bs ↦ some (span_word (b ∷ bs)) ]

module _ (V : Type 0) where
  -- The statics that the commands use, what was printed so far, and the screen. Characters from
  -- the keyboard are ASCII, so each is one byte of the console.
  pub record Kernel : Type 0 where
    pub console : Text
    pub screen : Screen
    pub framebuffer : Option FramebufferInfo
    pub keyboard : Keyboard.Statics
    pub scheduler : Scheduler.Statics V
    pub frames : Frames.Statics
    pub heap : Heap.BumpAllocator
    pub ticks : ℕ
    pub overlay : Overlay

abbrev show_bool : Bool → Text
show_bool true = codes "true"
show_bool false = codes "false"

abbrev label_or : Option Text → Text
label_or none = codes "unavailable"
label_or (some text) = text

-- The path and the contents of `write <FILE> <TEXT>`.
abbrev pub write_args : Text → Option (Text × Text)
write_args command = elim (strip_prefix (codes "write ") command) [
  | none ↦ none
  | some args ↦ split_once b' ' args
]

module _ {V : Type 0} (show_nat : ℕ → Text) (show_name : Option Text → Text) where
  abbrev pub print : Text → Kernel V → Kernel V
  print text k = record k { console = k.console ++ text }

  abbrev pub println : Text → Kernel V → Kernel V
  println text k = print (text ++ b'\n' ∷ []) k

  -- `redraw_boot_shell_surface` of kernel/src/drivers/framebuffer.rs
  unfoldable pub redraw_on : Option FramebufferInfo → Kernel V → Kernel V
  redraw_on none k = println (codes "AetherOS: framebuffer unavailable, nothing to clear") k
  redraw_on (some info) k =
      if info.bpp == 32
      then record k { screen = render_boot_visual info k.screen }
      else println
          (codes "AetherOS: framebuffer detected, but unsupported bpp for visual stage: "
            ++ show_nat info.bpp)
          k

  unfoldable pub redraw : Kernel V → Kernel V
  unfolding redraw_on
  redraw k = redraw_on k.framebuffer k

  unfoldable pub help : Kernel V → Kernel V
  help k =
      let k₁ = println (codes "commands:") k in
      let k₂ = println (codes "  help        Show this command list") k₁ in
      let k₃ = println (codes "  info        Show kernel and keyboard status") k₂ in
      let k₄ = println (codes "  ticks       Show PIT tick counter") k₃ in
      let k₅ = println (codes "  mem         Show frame allocator and heap status") k₄ in
      let k₆ = println (codes "  tasks       Show scheduler task summary") k₅ in
      let k₇ = println (codes "  ls          List VFS root entries") k₆ in
      let k₈ = println (codes "  cat <FILE>  Read a VFS file") k₇ in
      let k₉ =
        println (codes "  write <FILE> <TEXT>  Create or update a writable overlay file") k₈ in
      let l₁ = println (codes "  rm <FILE>   Remove a writable overlay file") k₉ in
      let l₂ = println (codes "  storage     Show storage boundary status") l₁ in
      println (codes "  clear       Redraw the framebuffer shell surface") l₂

  -- The command `tasks`, which is also the end of `info`.
  unfoldable pub tasks : Kernel V → Kernel V
  tasks k =
      let st = k.scheduler in
      let state = Option.map state_label (Scheduler.current_task_state st) in
      let mode = Option.map mode_label (Scheduler.current_task_execution_mode st) in
      let kind = Option.map AddressSpace.label (Scheduler.current_task_address_space_kind st) in
      let k₁ = println (codes "scheduler model = " ++ Scheduler.scheduling_model) k in
      let k₂ = println (codes "task count = " ++ show_nat st.task_count) k₁ in
      let k₃ = println (codes "current task = " ++ show_name (Scheduler.current_task_name st)) k₂ in
      let k₄ = println (codes "current task state = " ++ label_or state) k₃ in
      let k₅ = println (codes "current task mode = " ++ label_or mode) k₄ in
      println (codes "address space kind = " ++ label_or kind) k₅

  unfoldable pub info : Kernel V → Kernel V
  info k =
      let k₁ = println (codes "AetherOS academic kernel") k in
      tasks (println (codes "keyboard initialized = " ++ show_bool k.keyboard.initialized) k₁)

  unfoldable pub mem : Kernel V → Kernel V
  mem k =
      let k₁ = println (codes "usable ranges = " ++ show_nat k.frames.usable_range_count) k in
      let k₂ = println (codes "usable frames = " ++ show_nat k.frames.usable_frame_count) k₁ in
      let k₃ = println (codes "heap size = " ++ show_nat Heap.heap_size) k₂ in
      println (codes "heap used = " ++ show_nat (Heap.heap_used k.heap)) k₃

  unfoldable pub print_lines : List Text → Kernel V → Kernel V
  print_lines [] k = k
  print_lines (line ∷ lines) k = print_lines lines (println line k)

  unfoldable pub cat : Option (Text × Text) → Kernel V → Kernel V
  cat none k = println (codes "usage: cat <FILE>") k
  cat (some (path, behind)) k = elim (Vfs.read k.overlay path) [
    | some contents ↦ println (Vfs.deref k.overlay contents) k
    | none ↦ println (codes "file not found: " ++ path) k
  ]

  unfoldable pub write_file : Option (Text × Text) → Kernel V → Kernel V
  write_file none k = println (codes "usage: write <FILE> <TEXT>") k
  write_file (some (path, contents)) k = elim (Vfs.write k.overlay path contents) [
    | ok overlay ↦ println (codes "written: " ++ path) (record k { overlay = overlay })
    | err error ↦ println (codes "write failed: " ++ message error) k
  ]

  unfoldable pub rm : Option (Text × Text) → Kernel V → Kernel V
  rm none k = println (codes "usage: rm <FILE>") k
  rm (some (path, behind)) k = elim (Vfs.remove k.overlay path) [
    | ok overlay ↦ println (codes "removed: " ++ path) (record k { overlay = overlay })
    | err error ↦ println (codes "remove failed: " ++ message error) k
  ]

  -- `primary_device` of kernel/src/drivers/storage.rs, as it is shown.
  unfoldable pub storage : Kernel V → Kernel V
  storage k =
      let k₁ = println (codes "storage device = memory-overlay") k in
      let k₂ = println (codes "writable = " ++ show_bool true) k₁ in
      let k₃ = println (codes "persistent = " ++ show_bool false) k₂ in
      println (codes "block size = " ++ show_nat 1) k₃

  -- The `match` on the first word, with the text behind it.
  unfoldable pub run_command : Text → Text → Text → Kernel V → Kernel V
  run_command command head parts k =
      if bytes_eq head (codes "help")
      then help k
      else if bytes_eq head (codes "info")
      then info k
      else if bytes_eq head (codes "ticks")
      then println (codes "ticks = " ++ show_nat k.ticks) k
      else if bytes_eq head (codes "mem")
      then mem k
      else if bytes_eq head (codes "tasks")
      then tasks k
      else if bytes_eq head (codes "ls")
      then print_lines (Vfs.for_each_entry k.overlay) k
      else if bytes_eq head (codes "cat")
      then cat (next_word parts) k
      else if bytes_eq head (codes "write")
      then write_file (write_args command) k
      else if bytes_eq head (codes "rm")
      then rm (next_word parts) k
      else if bytes_eq head (codes "storage")
      then storage k
      else if bytes_eq head (codes "clear")
      then println (codes "screen redrawn") (redraw k)
      else println (codes "unknown command: " ++ command) k

  unfoldable pub execute_command : Text → Kernel V → Kernel V
  execute_command command k = elim (next_word command) [
    | none ↦ k
    | some (head, parts) ↦ run_command command head parts k
  ]

  unfoldable pub prompt : Kernel V → Kernel V
  prompt k = print (codes "aether> ") k

  unfoldable pub initialize : Shell → Kernel V → Shell × Kernel V
  initialize s k = if s.initialized then (s, k) else (
    record s { initialized = true },
    prompt (
        println (codes "Type 'help' to list commands.") (println (codes "AetherOS shell ready") k)),
  )

  -- The end of `execute_current_line`, for the trimmed line.
  unfoldable pub execute_trimmed : Text → Shell → Kernel V → Shell × Kernel V
  execute_trimmed [] s k = (record s { len = 0 }, k)
  execute_trimmed (b ∷ bs) s k = (record s { len = 0 }, execute_command (b ∷ bs) k)

  unfoldable pub execute_current_line : Shell → Kernel V → Shell × Kernel V
  execute_current_line s k = elim (from_utf8 (take s.len s.line_buffer)) [
    | none ↦ (record s { len = 0 }, println (codes "invalid input") k)
    | some line ↦ execute_trimmed (trim line) s k
  ]

  -- `Shell::on_key` once the shell is initialized. `character as u8` keeps the low byte.
  unfoldable pub on_event : KeyEvent → Shell → Kernel V → Shell × Kernel V
  on_event enter s k = let r = execute_current_line s (print (codes "\n") k) in (r.0, prompt r.1)
  on_event backspace s k =
      if ltb 0 s.len then (record s { len = s.len - 1 }, print (8 ∷ b' ' ∷ 8 ∷ []) k) else (s, k)
  on_event (char character) s k =
      if ltb s.len max_line_len
      then (
        record s { line_buffer = set s.line_buffer s.len (character % 256); len = s.len + 1 },
        print (character ∷ []) k,
      )
      else (record s { len = 0 }, prompt (println (codes "input too long") (print (codes "\n") k)))

  unfoldable pub on_key : KeyEvent → Shell → Kernel V → Shell × Kernel V
  on_key event s k = if not s.initialized then (s, k) else on_event event s k
