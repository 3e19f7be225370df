-- ===== src/Kernel/Invariant.antt =====
-- The invariant of the kernel's state under interrupts.
use mathlib.Core.Option
use aetheros_rust_project.Prelude.{
  ℕ, ◌<◌, Bool, true, false, not, ◌||◌, List, [], ◌∷◌, Option, none, some, arith, All, ◌==◌,
  bit_and, if_both, Option-cases, inl, inr,
}
use aetheros_rust_project.Prelude.Text.{Text}
use aetheros_rust_project.Prelude.Ascii.{IsAscii}
use aetheros_rust_project.Task.Scheduler.Turn as Turn
use aetheros_rust_project.Task.Scheduler.Start.{HasCurrent, tick-IsValid, tick-HasCurrent}
use aetheros_rust_project.Fs.Vfs.Valid as Valid
use aetheros_rust_project.Drivers.Keyboard
use aetheros_rust_project.Drivers.Keyboard.{
  KeyEvent, char, enter, backspace, decode_printable, decode_make, decode_scancode, on_interrupt,
}
use aetheros_rust_project.Drivers.Keyboard.Layout.{decode_printable_iff}
use aetheros_rust_project.Shell.{Shell, Kernel}
use aetheros_rust_project.Shell.Lines as Lines
use aetheros_rust_project.Shell.Lines.{line}
use aetheros_rust_project.Shell.Stored.{IsTyped, stores-on_key}
use aetheros_rust_project.Kernel.{
  Machine, Interrupt, tick, key, timer_interrupt_handler, deliver, keyboard_interrupt_handler,
  handle, run,
}
use aetheros_rust_project.Kernel.Run.{on_tick-Ticked, deliver-Keeps}
use aetheros_rust_project.Kernel.Typing.{deliver-IsValid}

-- The port gives a byte.
abbrev pub IsByte : Interrupt → Type 0
IsByte tick = Unit
IsByte (key scancode) = scancode < 256

pub record IsValid {V : Type 0} (m : Machine V) : Type 0 where
  pub scheduler : Turn.IsValid m.kernel.scheduler.scheduler
  pub turn : HasCurrent m.kernel.scheduler
  pub line_fits : Lines.IsValid m.shell
  pub line_ascii : IsAscii (line m.shell)
  pub overlay : Valid.IsValid m.kernel.overlay

-- No event, or one of the keyboard.
abbrev IsTypedIf : Option KeyEvent → Type 0
IsTypedIf none = Unit
IsTypedIf (some event) = IsTyped event

decode_printable-IsTypedIf :
    (shift : Bool) (scancode : ℕ)
    → scancode < 256
    → IsTypedIf (Option.map char (decode_printable shift scancode))
decode_printable-IsTypedIf shift scancode small =
    elim (Option-cases (decode_printable shift scancode)) [
      | inl other ↦ rw other tt
      | inr (c, found) ↦
          rw found (omega (arith, ((decode_printable_iff c).0 (shift, scancode, small, found)).1))
    ]

decode_scancode-IsTypedIf :
    (shift : Bool) (scancode : ℕ) → scancode < 256 → IsTypedIf (decode_scancode shift scancode).0
unfolding decode_scancode decode_make
decode_scancode-IsTypedIf shift scancode small =
    let P = λ (r : Option KeyEvent × Bool). IsTypedIf r.0 in
    let make = if_both IsTypedIf (scancode == 0x1C) {a = some enter} tt (
      if_both IsTypedIf (scancode == 0x0E) {a = some backspace} tt
        (decode_printable-IsTypedIf shift scancode small)) in
    if_both P (scancode == 0x2A || scancode == 0x36) {a = (none, true)} tt (
      if_both P (scancode == 0xAA || scancode == 0xB6) {a = (none, false)} tt
        (if_both P (not (bit_and scancode 0x80 == 0)) {a = (none, shift)} tt make))

on_interrupt-IsTypedIf :
    (st : Keyboard.Statics) (scancode : ℕ) → scancode < 256 → IsTypedIf (on_interrupt st scancode).0
unfolding on_interrupt
on_interrupt-IsTypedIf st scancode small =
    if_both (λ (r : Option KeyEvent × Keyboard.Statics). IsTypedIf r.0) (not st.initialized)
      {a = (none, st)} tt (decode_scancode-IsTypedIf st.shift_pressed scancode small)

module _ {V : Type 0} (show_nat : ℕ → Text) (show_name : Option Text → Text) where
  stores-deliver :
      (event : Option KeyEvent) (s : Shell) (k : Kernel V)
      → Lines.IsValid s
      → IsTypedIf event
      → IsAscii (line s)
      → Valid.IsValid k.overlay
      → IsAscii (line (deliver show_nat show_name event s k).0)
        × Valid.IsValid (deliver show_nat show_name event s k).1.overlay
  unfolding deliver
  stores-deliver none s k sv typed h v = (h, v)
  stores-deliver (some event) s k sv typed h v =
      stores-on_key show_nat show_name event s k sv typed h v

  handle-IsValid :
      (i : Interrupt) (m : Machine V)
      → IsByte i
      → IsValid m
      → IsValid (handle show_nat show_name i m)
  unfolding handle timer_interrupt_handler keyboard_interrupt_handler
  handle-IsValid tick m byte v =
      let t = on_tick-Ticked show_nat show_name m.kernel in
      record {
        scheduler = rw t.scheduler (tick-IsValid m.kernel.scheduler v.scheduler);
        turn = rw t.scheduler (tick-HasCurrent m.kernel.scheduler v.scheduler v.turn);
        line_fits = v.line_fits;
        line_ascii = v.line_ascii;
        overlay = rw t.overlay v.overlay;
      }
  handle-IsValid (key scancode) m byte v =
      let r = on_interrupt m.kernel.keyboard scancode in
      let k = record m.kernel { keyboard = r.1 } in
      let kept = deliver-Keeps show_nat show_name r.0 m.shell k in
      let stored =
        stores-deliver r.0 m.shell k v.line_fits
          (on_interrupt-IsTypedIf m.kernel.keyboard scancode byte) v.line_ascii v.overlay in
      record {
        scheduler = rw kept.scheduler v.scheduler;
        turn = rw kept.scheduler v.turn;
        line_fits = deliver-IsValid show_nat show_name r.0 m.shell k v.line_fits;
        line_ascii = stored.0;
        overlay = stored.1;
      }

  -- From a state that is valid, whatever bytes the keyboard sends and whenever the timer ticks: the task table
  -- stays well formed, a task of it is current, and it is the only one that runs; the line stays within
  -- its buffer and ASCII, and the overlay of the file system valid, whatever commands are typed.
  pub run-IsValid :
      (is : List Interrupt) (m : Machine V)
      → All IsByte is
      → IsValid m
      → IsValid (run show_nat show_name is m)
  unfolding run
  run-IsValid [] m bytes v = v
  run-IsValid (i ∷ is) m bytes v =
      run-IsValid is (handle show_nat show_name i m) bytes.1 (handle-IsValid i m bytes.0 v)
