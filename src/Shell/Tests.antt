-- ===== src/Shell/Tests.antt =====
-- The shell on typed lines. Numbers are printed as one character, and names as they are.
use aetheros_rust_project.Prelude.{ℕ, ◌≡◌, refl, true, [], ◌∷◌, ◌++◌, Option, none, some, arith}
use aetheros_rust_project.Prelude.Text.{Text, codes}
use aetheros_rust_project.Prelude.Str.{trim_start}
use aetheros_rust_project.Memory.Heap
use aetheros_rust_project.Task.Scheduler
use aetheros_rust_project.Fs.Vfs.{initial_overlay}
use aetheros_rust_project.Drivers.Keyboard.{char, at_boot}
use aetheros_rust_project.Shell.{
  Shell, Kernel, new, initialize, on_key, on_event, execute_command, next_word, run_command,
}
use aetheros_rust_project.Shell.Lines.{IsValid, line, edit, line-on_key}
use aetheros_rust_project.Shell.Commands.{Confined, execute_command-Confined}

abbrev digit : ℕ → Text
digit n = n ∷ []

abbrev plain : Option Text → Text
plain none = codes "None"
plain (some name) = name

abbrev kernel : Kernel ℕ
kernel = record {
  console = [];
  screen = λ o. 0;
  framebuffer = none;
  keyboard = at_boot;
  scheduler = Scheduler.initial_statics ℕ;
  frames = record { allocator = none; usable_frame_count = 0; usable_range_count = 0 };
  heap = Heap.new;
  ticks = 7;
  overlay = initial_overlay;
}

abbrev ready : Shell
ready = record new { initialized = true }

abbrev typed_hi : Shell
typed_hi = (on_key digit plain (char b'i') (on_key digit plain (char b'h') ready kernel).0 kernel).0

ready-IsValid : IsValid ready
ready-IsValid = record { sized = refl; bounded = omega arith }

starts : (initialize digit plain new kernel).0 ≡ ready
unfolding initialize
starts = refl

types : line typed_hi ≡ codes "hi"
unfolding on_key on_event
types = refl

splits : next_word (codes "  rm  NOTE ") ≡ some (codes "rm", codes "  NOTE ")
unfolding next_word trim_start
splits = refl

shows_ticks :
    (execute_command digit plain (codes "ticks") kernel).console ≡ codes "ticks = " ++ 7 ∷ 10 ∷ []
unfolding execute_command run_command next_word trim_start
shows_ticks = refl

line-on_key_example :
    line (on_key digit plain (char b'h') ready kernel).0 ≡ edit (char b'h') (line ready)
line-on_key_example = line-on_key digit plain (char b'h') ready kernel ready-IsValid refl

execute_command-Confined_example :
    Confined
      (codes "write NOTE hi")
      kernel
      (execute_command digit plain (codes "write NOTE hi") kernel)
execute_command-Confined_example =
    execute_command-Confined digit plain (codes "write NOTE hi") kernel
