-- ===== src/Shell/Commands.antt =====
-- What the commands of kernel/src/shell.rs change.

use aetheros_rust_project.Prelude.{
  ℕ, ◌≡◌, refl, ◌⊎◌, Bool, true, false, List, [], ◌∷◌, Option, none, some, if◌then◌else◌, bytes_eq,
  ◌==◌, Option-cases, inl, inr,
}
use aetheros_rust_project.Prelude.Text.{Text, codes}
use aetheros_rust_project.BootInfo.{FramebufferInfo}
use aetheros_rust_project.Fs.Vfs
use aetheros_rust_project.Fs.Vfs.{Overlay, VfsError, Result, ok, err}
use aetheros_rust_project.Arch.Vga.{render_boot_visual}
use aetheros_rust_project.Shell.{
  Kernel, println, help, info, tasks, mem, print_lines, cat, write_file, rm, storage, redraw,
  redraw_on, run_command, execute_command, next_word, write_args,
}

-- A change that is confined to the console, the screen and the overlay, and there to at most the
-- write that the command asks for, or one removal.
pub record Confined {V : Type 0} (command : Text) (k k' : Kernel V) : Type 0 where
  pub framebuffer : k'.framebuffer ≡ k.framebuffer
  pub keyboard : k'.keyboard ≡ k.keyboard
  pub scheduler : k'.scheduler ≡ k.scheduler
  pub frames : k'.frames ≡ k.frames
  pub heap : k'.heap ≡ k.heap
  pub ticks : k'.ticks ≡ k.ticks
  pub overlay :
      (k'.overlay ≡ k.overlay)
      ⊎ ((path : Text) × (contents : Text) × (write_args command ≡ some (path, contents))
          × (Vfs.write k.overlay path contents ≡ ok k'.overlay))
      ⊎ ((path : Text) × (Vfs.remove k.overlay path ≡ ok k'.overlay))

-- The outcome of a write or a removal.
Result-cases :
    (r : Result Overlay) → ((files : Overlay) × (r ≡ ok files)) ⊎ ((e : VfsError) × (r ≡ err e))
Result-cases (ok files) = inl (files, refl)
Result-cases (err e) = inr (e, refl)

module _ {V : Type 0} {command : Text} where
  nothing-Confined : (k : Kernel V) → Confined command k k
  nothing-Confined k = record {
    framebuffer = refl;
    keyboard = refl;
    scheduler = refl;
    frames = refl;
    heap = refl;
    ticks = refl;
    overlay = inl refl;
  }

  print-Confined :
      (text : Text) (k : Kernel V) {k₀ : Kernel V}
      → Confined command k₀ k
      → Confined command k₀ (record k { console = text })
  print-Confined text k c = record {
    framebuffer = c.framebuffer;
    keyboard = c.keyboard;
    scheduler = c.scheduler;
    frames = c.frames;
    heap = c.heap;
    ticks = c.ticks;
    overlay = c.overlay;
  }

  stored-Confined :
      (k : Kernel V) (files : Overlay)
      → ((path : Text) × (contents : Text) × (write_args command ≡ some (path, contents))
          × (Vfs.write k.overlay path contents ≡ ok files))
        ⊎ ((path : Text) × (Vfs.remove k.overlay path ≡ ok files))
      → Confined command k (record k { overlay = files })
  stored-Confined k files change = record {
    framebuffer = refl;
    keyboard = refl;
    scheduler = refl;
    frames = refl;
    heap = refl;
    ticks = refl;
    overlay = inr change;
  }

  if-Confined :
      {k a b : Kernel V} (test : Bool)
      → Confined command k a
      → Confined command k b
      → Confined command k (if test then a else b)
  if-Confined true c d = c
  if-Confined false c d = d

module _ {V : Type 0} {command : Text} (show_nat : ℕ → Text) (show_name : Option Text → Text) where
  help-Confined : (k : Kernel V) → Confined command k (help show_nat show_name k)
  unfolding help
  help-Confined k = print-Confined _ k (nothing-Confined k)

  tasks-Confined : (k : Kernel V) → Confined command k (tasks show_nat show_name k)
  unfolding tasks
  tasks-Confined k = print-Confined _ k (nothing-Confined k)

  info-Confined : (k : Kernel V) → Confined command k (info show_nat show_name k)
  unfolding info tasks
  info-Confined k = print-Confined _ k (nothing-Confined k)

  mem-Confined : (k : Kernel V) → Confined command k (mem show_nat show_name k)
  unfolding mem
  mem-Confined k = print-Confined _ k (nothing-Confined k)

  storage-Confined : (k : Kernel V) → Confined command k (storage show_nat show_name k)
  unfolding storage
  storage-Confined k = print-Confined _ k (nothing-Confined k)

  print_lines-Confined :
      (lines : List Text) (k : Kernel V) {k₀ : Kernel V}
      → Confined command k₀ k
      → Confined command k₀ (print_lines show_nat show_name lines k)
  unfolding print_lines
  print_lines-Confined [] k c = c
  print_lines-Confined (line ∷ lines) k c =
      print_lines-Confined lines (println show_nat show_name line k) (print-Confined _ k c)

  cat-Confined :
      (arg : Option (Text × Text)) (k : Kernel V)
      → Confined command k (cat show_nat show_name arg k)
  unfolding cat
  cat-Confined none k = print-Confined _ k (nothing-Confined k)
  cat-Confined (some (path, behind)) k = elim (Option-cases (Vfs.read k.overlay path)) [
    | inl missing ↦ rw (missing, cat) (print-Confined _ k (nothing-Confined k))
    | inr (contents, found) ↦ rw (found, cat) (print-Confined _ k (nothing-Confined k))
  ]

  write_file-Confined :
      (arg : Option (Text × Text)) (k : Kernel V)
      → write_args command ≡ arg
      → Confined command k (write_file show_nat show_name arg k)
  unfolding write_file
  write_file-Confined none k asked = print-Confined _ k (nothing-Confined k)
  write_file-Confined (some (path, contents)) k asked =
      elim (Result-cases (Vfs.write k.overlay path contents)) [
        | inl (files, done) ↦
            rw (done, write_file)
              (print-Confined _ (record k { overlay = files })
                (stored-Confined k files (inl (path, contents, asked, done))))
        | inr (e, refused) ↦ rw (refused, write_file) (print-Confined _ k (nothing-Confined k))
      ]

  rm-Confined :
      (arg : Option (Text × Text)) (k : Kernel V) → Confined command k (rm show_nat show_name arg k)
  unfolding rm
  rm-Confined none k = print-Confined _ k (nothing-Confined k)
  rm-Confined (some (path, behind)) k = elim (Result-cases (Vfs.remove k.overlay path)) [
    | inl (files, done) ↦
        rw (done, rm)
          (print-Confined _ (record k { overlay = files })
            (stored-Confined k files (inr (path, done))))
    | inr (e, refused) ↦ rw (refused, rm) (print-Confined _ k (nothing-Confined k))
  ]

  screen-Confined :
      (k : Kernel V) (info : FramebufferInfo)
      → Confined command k (record k { screen = render_boot_visual info k.screen })
  screen-Confined k info = record {
    framebuffer = refl;
    keyboard = refl;
    scheduler = refl;
    frames = refl;
    heap = refl;
    ticks = refl;
    overlay = inl refl;
  }

  pub redraw_on-Confined :
      (framebuffer : Option FramebufferInfo) (k : Kernel V)
      → Confined command k (redraw_on show_nat show_name framebuffer k)
  unfolding redraw_on
  redraw_on-Confined none k = print-Confined _ k (nothing-Confined k)
  redraw_on-Confined (some f) k =
      if-Confined (f.bpp == 32) (screen-Confined k f) (print-Confined _ k (nothing-Confined k))

  redraw-Confined : (k : Kernel V) → Confined command k (redraw show_nat show_name k)
  unfolding redraw
  redraw-Confined k = redraw_on-Confined k.framebuffer k

module _ {V : Type 0} (show_nat : ℕ → Text) (show_name : Option Text → Text) where
  run_command-Confined :
      (command head parts : Text) (k : Kernel V)
      → Confined command k (run_command show_nat show_name command head parts k)
  unfolding run_command
  run_command-Confined command head parts k =
      if-Confined (bytes_eq head (codes "help")) (help-Confined show_nat show_name k) (
        if-Confined (bytes_eq head (codes "info")) (info-Confined show_nat show_name k) (
          if-Confined (bytes_eq head (codes "ticks")) (print-Confined _ k (nothing-Confined k)) (
            if-Confined (bytes_eq head (codes "mem")) (mem-Confined show_nat show_name k) (
              if-Confined (bytes_eq head (codes "tasks")) (tasks-Confined show_nat show_name k) (
                if-Confined (bytes_eq head (codes "ls"))
                  (print_lines-Confined show_nat show_name (Vfs.for_each_entry k.overlay) k
                    (nothing-Confined k))
                  (if-Confined (bytes_eq head (codes "cat"))
                    (cat-Confined show_nat show_name (next_word parts) k)
                    (if-Confined (bytes_eq head (codes "write"))
                      (write_file-Confined show_nat show_name (write_args command) k refl)
                      (if-Confined (bytes_eq head (codes "rm"))
                        (rm-Confined show_nat show_name (next_word parts) k)
                        (if-Confined (bytes_eq head (codes "storage"))
                          (storage-Confined show_nat show_name k)
                          (if-Confined (bytes_eq head (codes "clear"))
                            (print-Confined _ (redraw show_nat show_name k)
                              (redraw-Confined show_nat show_name k))
                            (print-Confined _ k (nothing-Confined k))))))))))))

  -- A command changes nothing but the console, the screen and the overlay, and the overlay at most by
  -- the successful write of the path and the text that it gives, or by one successful removal.
  pub execute_command-Confined :
      (command : Text) (k : Kernel V)
      → Confined command k (execute_command show_nat show_name command k)
  unfolding execute_command
  execute_command-Confined command k = elim (Option-cases (next_word command)) [
    | inl empty ↦ rw (empty, execute_command) (nothing-Confined k)
    | inr ((head, parts), first) ↦
        rw (first, execute_command) (run_command-Confined command head parts k)
  ]
