-- ===== src/Kernel/Typing.antt =====
-- What is typed on the keyboard, past the timer, against a line as a list of characters.
use aetheros_rust_project.Prelude.{
  ℕ, ◌≡◌, refl, ap, ap₂, ◌∙◌, Bool, true, false, not, List, [], ◌∷◌, Option, none, some, arith,
}
use aetheros_rust_project.Prelude.Text.{Text}
use aetheros_rust_project.Drivers.Keyboard
use aetheros_rust_project.Drivers.Keyboard.{KeyEvent, decode_scancode}
use aetheros_rust_project.Shell.{Shell, Kernel}
use aetheros_rust_project.Shell.Keys.{on_key_initialized}
use aetheros_rust_project.Shell.Lines as Lines
use aetheros_rust_project.Shell.Lines.{line, edit, on_key-IsValid, line-on_key}
use aetheros_rust_project.Kernel.{
  Machine, Interrupt, tick, key, timer_interrupt_handler, deliver, keyboard_interrupt_handler,
  handle, run,
}
use aetheros_rust_project.Kernel.Run.{on_tick-Ticked, deliver-Keeps}

-- The state of shift, and the line.
abbrev pub Typed : Type 0
Typed = Bool × Text

abbrev pub edit_if : Option KeyEvent → Text → Text
edit_if none cs = cs
edit_if (some event) cs = edit event cs

-- An interrupt, as the one who types sees it.
abbrev pub press : Interrupt → Typed → Typed
press tick (shift, cs) = (shift, cs)
press (key scancode) (shift, cs) = let r = decode_scancode shift scancode in (r.1, edit_if r.0 cs)

abbrev pub press_all : List Interrupt → Typed → Typed
press_all [] t = t
press_all (i ∷ is) t = press_all is (press i t)

-- The keyboard and the shell are initialized, and the line is within its buffer.
pub record IsReady {V : Type 0} (m : Machine V) : Type 0 where
  pub keyboard : m.kernel.keyboard.initialized ≡ true
  pub shell : m.shell.initialized ≡ true
  pub valid : Lines.IsValid m.shell

abbrev pub typed : {V : Type 0} → Machine V → Typed
typed m = (m.kernel.keyboard.shift_pressed, line m.shell)

on_interrupt_ready :
    (st : Keyboard.Statics) (scancode : ℕ)
    → st.initialized ≡ true
    → Keyboard.on_interrupt st scancode ≡ (
      (decode_scancode st.shift_pressed scancode).0,
      record st { shift_pressed = (decode_scancode st.shift_pressed scancode).1 },
    )
unfolding Keyboard.on_interrupt
on_interrupt_ready st scancode ready =
    let on : not st.initialized ≡ false = ground (arith, ready) in rw on refl

module _ {V : Type 0} (show_nat : ℕ → Text) (show_name : Option Text → Text) where
  pub deliver-IsValid :
      (event : Option KeyEvent) (s : Shell) (k : Kernel V)
      → Lines.IsValid s
      → Lines.IsValid (deliver show_nat show_name event s k).0
  unfolding deliver
  deliver-IsValid none s k v = v
  deliver-IsValid (some event) s k v = on_key-IsValid show_nat show_name event s k v

  deliver-initialized :
      (event : Option KeyEvent) (s : Shell) (k : Kernel V)
      → (deliver show_nat show_name event s k).0.initialized ≡ s.initialized
  unfolding deliver
  deliver-initialized none s k = refl
  deliver-initialized (some event) s k = on_key_initialized show_nat show_name event s k

  deliver-line :
      (event : Option KeyEvent) (s : Shell) (k : Kernel V)
      → Lines.IsValid s
      → s.initialized ≡ true
      → line (deliver show_nat show_name event s k).0 ≡ edit_if event (line s)
  unfolding deliver
  deliver-line none s k v ready = refl
  deliver-line (some event) s k v ready = line-on_key show_nat show_name event s k v ready

  handle-typed :
      (i : Interrupt) (m : Machine V)
      → IsReady m
      → IsReady (handle show_nat show_name i m)
        × (typed (handle show_nat show_name i m) ≡ press i (typed m))
  unfolding handle timer_interrupt_handler keyboard_interrupt_handler
  handle-typed tick m ready =
      let t = on_tick-Ticked show_nat show_name m.kernel in
      (
        record {
          keyboard = ap (λ s. s.initialized) t.keyboard ∙ ready.keyboard;
          shell = ready.shell;
          valid = ready.valid;
        },
        ap (λ s. (s.shift_pressed, line m.shell)) t.keyboard,
      )
  handle-typed (key scancode) m ready =
      let st = m.kernel.keyboard in
      let r = decode_scancode st.shift_pressed scancode in
      let k = record m.kernel { keyboard = record st { shift_pressed = r.1 } } in
      let kept = deliver-Keeps show_nat show_name r.0 m.shell k in
      rw (on_interrupt_ready st scancode ready.keyboard) (
        record {
          keyboard = ap (λ s. s.initialized) kept.keyboard ∙ ready.keyboard;
          shell = deliver-initialized r.0 m.shell k ∙ ready.shell;
          valid = deliver-IsValid r.0 m.shell k ready.valid;
        },
        ap₂ (λ s t. (s.shift_pressed, t)) kept.keyboard
            (deliver-line r.0 m.shell k ready.valid ready.shell),
      )

  -- Once the keyboard and the shell are initialized, any sequence of interrupts does to shift and
  -- to the line what `press_all` does on a list of characters, and leaves the line within its buffer.
  pub run-typed :
      (is : List Interrupt) (m : Machine V)
      → IsReady m
      → IsReady (run show_nat show_name is m)
        × (typed (run show_nat show_name is m) ≡ press_all is (typed m))
  unfolding run
  run-typed [] m ready = (ready, refl)
  run-typed (i ∷ is) m ready =
      let (still, step) = handle-typed i m ready in
      let (last, rest) = run-typed is (handle show_nat show_name i m) still in
      (last, rest ∙ ap (press_all is) step)
