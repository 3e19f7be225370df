-- ===== src/Shell/Keys.antt =====
-- What a key event of kernel/src/shell.rs leaves alone in the rest of the kernel.
use aetheros_rust_project.Prelude.{
  ℕ, ◌≡◌, refl, ap, ◌∙◌, true, false, not, [], ◌∷◌, Option, none, some, arith, take, ltb, if_both,
  ◌==◌, Bool-cases, Option-cases, inl, inr,
}
use aetheros_rust_project.Prelude.Text.{Text, codes}
use aetheros_rust_project.Prelude.Str.{trim, from_utf8}
use aetheros_rust_project.Drivers.Keyboard.{KeyEvent, char, enter, backspace}
use aetheros_rust_project.Shell.{
  Shell, Kernel, max_line_len, print, prompt, on_key, on_event, execute_command, execute_trimmed,
  execute_current_line, redraw_on,
}
use aetheros_rust_project.Shell.Lines.{execute_current_line-empty}
use aetheros_rust_project.BootInfo.{FramebufferInfo}
use aetheros_rust_project.Shell.Commands.{execute_command-Confined, redraw_on-Confined}

-- The console, the screen and the overlay may differ.
pub record Keeps {V : Type 0} (k k' : Kernel V) : Type 0 where
  pub framebuffer : k'.framebuffer ≡ k.framebuffer
  pub keyboard : k'.keyboard ≡ k.keyboard
  pub scheduler : k'.scheduler ≡ k.scheduler
  pub frames : k'.frames ≡ k.frames
  pub heap : k'.heap ≡ k.heap
  pub ticks : k'.ticks ≡ k.ticks

module _ {V : Type 0} (show_nat : ℕ → Text) (show_name : Option Text → Text) where
  pub redraw_on-Keeps :
      (f : Option FramebufferInfo) (k : Kernel V) → Keeps k (redraw_on show_nat show_name f k)
  redraw_on-Keeps f k =
      let c = redraw_on-Confined {command = []} show_nat show_name f k in
      record {
        framebuffer = c.framebuffer;
        keyboard = c.keyboard;
        scheduler = c.scheduler;
        frames = c.frames;
        heap = c.heap;
        ticks = c.ticks;
      }

  pub redraw_on_overlay :
      (f : Option FramebufferInfo) (k : Kernel V)
      → (redraw_on show_nat show_name f k).overlay ≡ k.overlay
  unfolding redraw_on
  redraw_on_overlay none k = refl
  redraw_on_overlay (some f) k =
      if_both (λ (l : Kernel V). l.overlay ≡ k.overlay) (f.bpp == 32) refl refl

  execute_command-Keeps :
      (command : Text) (k k₀ : Kernel V)
      → Keeps k₀ k
      → Keeps k₀ (execute_command show_nat show_name command k)
  execute_command-Keeps command k k₀ before =
      let c = execute_command-Confined show_nat show_name command k in
      record {
        framebuffer = c.framebuffer ∙ before.framebuffer;
        keyboard = c.keyboard ∙ before.keyboard;
        scheduler = c.scheduler ∙ before.scheduler;
        frames = c.frames ∙ before.frames;
        heap = c.heap ∙ before.heap;
        ticks = c.ticks ∙ before.ticks;
      }

  print-Keeps :
      (text : Text) (k k₀ : Kernel V) → Keeps k₀ k → Keeps k₀ (record k { console = text })
  print-Keeps text k k₀ before = record {
    framebuffer = before.framebuffer;
    keyboard = before.keyboard;
    scheduler = before.scheduler;
    frames = before.frames;
    heap = before.heap;
    ticks = before.ticks;
  }

  prompt-Keeps : (k k₀ : Kernel V) → Keeps k₀ k → Keeps k₀ (prompt show_nat show_name k)
  unfolding prompt
  prompt-Keeps k k₀ before = print-Keeps _ k k₀ before

  all_kept : (k : Kernel V) → Keeps k k
  all_kept k = record {
    framebuffer = refl;
    keyboard = refl;
    scheduler = refl;
    frames = refl;
    heap = refl;
    ticks = refl;
  }

  execute_trimmed-Keeps :
      (t : Text) (s : Shell) (k k₀ : Kernel V)
      → Keeps k₀ k
      → Keeps k₀ (execute_trimmed show_nat show_name t s k).1
  unfolding execute_trimmed
  execute_trimmed-Keeps [] s k k₀ before = before
  execute_trimmed-Keeps (b ∷ bs) s k k₀ before = execute_command-Keeps (b ∷ bs) k k₀ before

  execute_current_line-Keeps :
      (s : Shell) (k k₀ : Kernel V)
      → Keeps k₀ k
      → Keeps k₀ (execute_current_line show_nat show_name s k).1
  unfolding execute_current_line
  execute_current_line-Keeps s k k₀ before =
      elim (Option-cases (from_utf8 (take s.len s.line_buffer))) [
        | inl not_valid ↦ rw (not_valid, execute_current_line) (print-Keeps _ k k₀ before)
        | inr (text, valid) ↦
            rw (valid, execute_current_line) (execute_trimmed-Keeps (trim text) s k k₀ before)
      ]

  on_event-Keeps :
      (event : KeyEvent) (s : Shell) (k : Kernel V)
      → Keeps k (on_event show_nat show_name event s k).1
  unfolding on_event
  on_event-Keeps enter s k =
      prompt-Keeps
        (execute_current_line show_nat show_name s (print show_nat show_name (codes "\n") k)).1 k
        (execute_current_line-Keeps s (print show_nat show_name (codes "\n") k) k
          (print-Keeps _ k k (all_kept k)))
  on_event-Keeps backspace s k = elim (Bool-cases (ltb 0 s.len)) [
    | inl some_left ↦ rw some_left (print-Keeps _ k k (all_kept k))
    | inr empty ↦ rw empty (all_kept k)
  ]
  on_event-Keeps (char c) s k = elim (Bool-cases (ltb s.len max_line_len)) [
    | inl room ↦ rw room (print-Keeps _ k k (all_kept k))
    | inr full ↦
        rw full (prompt-Keeps (record k { console = _ }) k (print-Keeps _ k k (all_kept k)))
  ]

  -- A key event changes nothing but the line, the console, the screen and the overlay.
  pub on_key-Keeps :
      (event : KeyEvent) (s : Shell) (k : Kernel V)
      → Keeps k (on_key show_nat show_name event s k).1
  unfolding on_key
  on_key-Keeps event s k = elim (Bool-cases s.initialized) [
    | inl on ↦
        let on_now : not s.initialized ≡ false = ground (arith, on) in
        rw on_now (on_event-Keeps event s k)
    | inr off ↦ let early : not s.initialized ≡ true = ground (arith, off) in rw early (all_kept k)
  ]

  execute_current_line-initialized :
      (s : Shell) (k : Kernel V)
      → (execute_current_line show_nat show_name s k).0.initialized ≡ s.initialized
  execute_current_line-initialized s k =
      ap (λ t. t.initialized) (execute_current_line-empty show_nat show_name s k)

  pub on_key_initialized :
      (event : KeyEvent) (s : Shell) (k : Kernel V)
      → (on_key show_nat show_name event s k).0.initialized ≡ s.initialized
  unfolding on_key on_event
  on_key_initialized enter s k =
      ground (arith, execute_current_line-initialized s (print show_nat show_name (codes "\n") k))
  on_key_initialized backspace s k = ground arith
  on_key_initialized (char c) s k = ground arith
