-- ===== src/Kernel/Run.antt =====
-- What a sequence of timer and keyboard interrupts does to the kernel.
use native.Mathlib.Nat.{mod-add-mod, mod-eq_of_lt, mod-lt}
use aetheros_rust_project.Prelude.{
  ℕ, zero, suc, ◌+◌, ◌%◌, ◌<◌, ◌≡◌, refl, sym, ap, ap₂, ◌∙◌, Bool, true, false, List, [], ◌∷◌, ◌++◌,
  append_assoc, append-nil, Option, none, some, arith, length, ◌==◌, Bool-cases, inl, inr,
}
use aetheros_rust_project.Prelude.Text.{Text}
use aetheros_rust_project.Prelude.Words.{u64_mod, add64}
use aetheros_rust_project.Task.Scheduler
use aetheros_rust_project.Task.Scheduler.Start.{ticked, ticked_add}
use aetheros_rust_project.Drivers.Keyboard
use aetheros_rust_project.Drivers.Keyboard.{KeyEvent}
use aetheros_rust_project.Arch.Serial.{PortWrite}
use aetheros_rust_project.Arch.Interrupts.{
  InterruptIndex, timer, keyboard, notify_end_of_interrupt, end_of_interrupt, as_u8,
}
use aetheros_rust_project.Shell.{Shell, Kernel}
use aetheros_rust_project.Shell.Keys.{Keeps, on_key-Keeps}
use aetheros_rust_project.Kernel.{
  Machine, Interrupt, tick, key, on_tick, timer_interrupt_handler, deliver,
  keyboard_interrupt_handler, handle, run,
}

-- The number of timer interrupts.
abbrev pub timers : List Interrupt → ℕ
timers [] = 0
timers (tick ∷ is) = suc (timers is)
timers (key scancode ∷ is) = timers is

-- One end-of-interrupt command to the first controller for each of `n` interrupts.
abbrev pub acknowledgements : ℕ → List PortWrite
acknowledgements zero = []
acknowledgements (suc n) = record { port = 0x20; value = 0x20 } ∷ acknowledgements n

-- Without initialized controllers no interrupt is acknowledged.
abbrev pub acknowledged : Bool → ℕ → List PortWrite
acknowledged true n = acknowledgements n
acknowledged false n = []

-- The effect of `n` timer interrupts among `all` interrupts on what they share.
pub record Ran {V : Type 0} (n all : ℕ) (m m' : Machine V) : Type 0 where
  pub scheduler : m'.kernel.scheduler ≡ ticked n m.kernel.scheduler
  pub ticks : m'.kernel.ticks ≡ (m.kernel.ticks + n) % u64_mod
  pub framebuffer : m'.kernel.framebuffer ≡ m.kernel.framebuffer
  pub frames : m'.kernel.frames ≡ m.kernel.frames
  pub heap : m'.kernel.heap ≡ m.kernel.heap
  pub keyboard_initialized : m'.kernel.keyboard.initialized ≡ m.kernel.keyboard.initialized
  pub vfs_initialized : m'.vfs_initialized ≡ m.vfs_initialized
  pub pics_initialized : m'.pics_initialized ≡ m.pics_initialized
  pub ports : m'.ports ≡ m.ports ++ acknowledged m.pics_initialized all

-- What `on_tick` leaves of the kernel, but for the console.
pub record Ticked {V : Type 0} (k k' : Kernel V) : Type 0 where
  pub scheduler : k'.scheduler ≡ Scheduler.tick k.scheduler
  pub ticks : k'.ticks ≡ add64 k.ticks 1
  pub framebuffer : k'.framebuffer ≡ k.framebuffer
  pub frames : k'.frames ≡ k.frames
  pub heap : k'.heap ≡ k.heap
  pub keyboard : k'.keyboard ≡ k.keyboard
  pub overlay : k'.overlay ≡ k.overlay

acknowledges :
    (ready : Bool) (index : InterruptIndex)
    → notify_end_of_interrupt ready index ≡ acknowledged ready 1
unfolding notify_end_of_interrupt end_of_interrupt as_u8
acknowledges true timer = refl
acknowledges true keyboard = refl
acknowledges false index = refl

pub acknowledged_add :
    (ready : Bool) (n k : ℕ)
    → acknowledged ready n ++ acknowledged ready k ≡ acknowledged ready (n + k)
acknowledged_add false n k = refl
acknowledged_add true zero k = ap acknowledgements (let e : k ≡ 0 + k = omega arith in e)
acknowledged_add true (suc n) k =
    ap (◌∷◌ (record { port = 0x20; value = 0x20 })) (acknowledged_add true n k)
    ∙ ap acknowledgements (let e : suc (n + k) ≡ suc n + k = omega arith in e)

acknowledged_none : (ready : Bool) (ports : List PortWrite) → ports ≡ ports ++ acknowledged ready 0
acknowledged_none true ports = sym (append-nil ports)
acknowledged_none false ports = sym (append-nil ports)

on_interrupt_initialized :
    (st : Keyboard.Statics) (scancode : ℕ)
    → (Keyboard.on_interrupt st scancode).1.initialized ≡ st.initialized
unfolding Keyboard.on_interrupt
on_interrupt_initialized st scancode = ground arith

module _ {V : Type 0} (show_nat : ℕ → Text) (show_name : Option Text → Text) where
  pub on_tick-Ticked : (k : Kernel V) → Ticked k (on_tick show_nat show_name k)
  unfolding on_tick
  on_tick-Ticked k = elim (Bool-cases (add64 k.ticks 1 % 100 == 0)) [
    | inl shown ↦ rw shown (record {
      scheduler = refl;
      ticks = refl;
      framebuffer = refl;
      frames = refl;
      heap = refl;
      keyboard = refl;
      overlay = refl;
    })
    | inr quiet ↦ rw quiet (record {
      scheduler = refl;
      ticks = refl;
      framebuffer = refl;
      frames = refl;
      heap = refl;
      keyboard = refl;
      overlay = refl;
    })
  ]

  pub deliver-Keeps :
      (event : Option KeyEvent) (s : Shell) (k : Kernel V)
      → Keeps k (deliver show_nat show_name event s k).1
  unfolding deliver
  deliver-Keeps none s k = record {
    framebuffer = refl;
    keyboard = refl;
    scheduler = refl;
    frames = refl;
    heap = refl;
    ticks = refl;
  }
  deliver-Keeps (some event) s k = on_key-Keeps show_nat show_name event s k

  timer-Ran : (m : Machine V) → Ran 1 1 m (timer_interrupt_handler show_nat show_name m)
  unfolding timer_interrupt_handler
  timer-Ran m =
      let t = on_tick-Ticked m.kernel in
      record {
        scheduler = t.scheduler;
        ticks = t.ticks;
        framebuffer = t.framebuffer;
        frames = t.frames;
        heap = t.heap;
        keyboard_initialized = ap (λ k. k.initialized) t.keyboard;
        vfs_initialized = refl;
        pics_initialized = refl;
        ports = ap (◌++◌ m.ports) (acknowledges m.pics_initialized timer);
      }

  keyboard-Ran :
      (scancode : ℕ) (m : Machine V)
      → m.kernel.ticks < u64_mod
      → Ran 0 1 m (keyboard_interrupt_handler show_nat show_name scancode m)
  unfolding keyboard_interrupt_handler
  keyboard-Ran scancode m small =
      let r = Keyboard.on_interrupt m.kernel.keyboard scancode in
      let c = deliver-Keeps r.0 m.shell (record m.kernel { keyboard = r.1 }) in
      record {
        scheduler = c.scheduler;
        ticks = c.ticks ∙ sym (omega (arith, mod-eq_of_lt small));
        framebuffer = c.framebuffer;
        frames = c.frames;
        heap = c.heap;
        keyboard_initialized =
            ap (λ k. k.initialized) c.keyboard
            ∙ on_interrupt_initialized m.kernel.keyboard scancode;
        vfs_initialized = refl;
        pics_initialized = refl;
        ports = ap (◌++◌ m.ports) (acknowledges m.pics_initialized keyboard);
      }

  handle-Ran :
      (i : Interrupt) (m : Machine V)
      → m.kernel.ticks < u64_mod
      → Ran (timers (i ∷ [])) 1 m (handle show_nat show_name i m)
  unfolding handle
  handle-Ran tick m small = timer-Ran m
  handle-Ran (key scancode) m small = keyboard-Ran scancode m small

  Ran-then :
      (a b n k : ℕ) {m₁ m₂ m₃ : Machine V}
      → Ran a n m₁ m₂
      → Ran b k m₂ m₃
      → Ran (a + b) (n + k) m₁ m₃
  Ran-then a b n k {m₁} p q = record {
    scheduler = q.scheduler ∙ ap (ticked b) p.scheduler ∙ ticked_add a b m₁.kernel.scheduler;
    ticks =
        q.ticks
        ∙ ap (λ t. (t + b) % u64_mod) p.ticks
        ∙ mod-add-mod _ _ _
        ∙ ap (λ t. t % u64_mod) (omega arith);
    framebuffer = q.framebuffer ∙ p.framebuffer;
    frames = q.frames ∙ p.frames;
    heap = q.heap ∙ p.heap;
    keyboard_initialized = q.keyboard_initialized ∙ p.keyboard_initialized;
    vfs_initialized = q.vfs_initialized ∙ p.vfs_initialized;
    pics_initialized = q.pics_initialized ∙ p.pics_initialized;
    ports =
        q.ports
        ∙ ap₂ (λ w b. w ++ acknowledged b k) p.ports p.pics_initialized
        ∙ append_assoc m₁.ports (acknowledged m₁.pics_initialized n)
            (acknowledged m₁.pics_initialized k)
        ∙ ap (◌++◌ m₁.ports) (acknowledged_add m₁.pics_initialized n k);
  }

  -- Whatever the keyboard sends in between, `n` timer interrupts tick the scheduler `n` times and
  -- count up the tick counter by `n`, modulo 2^64; frames, heap and framebuffer stay as they are,
  -- and each interrupt is acknowledged once, to the first controller only, if the controllers are
  -- initialized, and not at all if they are not.
  pub run-Ran :
      (is : List Interrupt) (m : Machine V)
      → m.kernel.ticks < u64_mod
      → Ran (timers is) (length is) m (run show_nat show_name is m)
  unfolding run
  run-Ran [] m small = record {
    scheduler = refl;
    ticks = sym (omega (arith, mod-eq_of_lt small));
    framebuffer = refl;
    frames = refl;
    heap = refl;
    keyboard_initialized = refl;
    vfs_initialized = refl;
    pics_initialized = refl;
    ports = acknowledged_none m.pics_initialized m.ports;
  }
  run-Ran (i ∷ is) m small =
      let first = handle-Ran i m small in
      let rest =
        run-Ran is (handle show_nat show_name i m) (rw first.ticks (mod-lt _ (omega arith))) in
      let one_more : 1 + length is ≡ length (i ∷ is) = omega arith in
      rw (timers-cons i is, ← one_more)
        (Ran-then (timers (i ∷ [])) (timers is) 1 (length is) first rest)
    where
      timers-cons :
          (i : Interrupt) (is : List Interrupt) → timers (i ∷ is) ≡ timers (i ∷ []) + timers is
      timers-cons tick is = omega arith
      timers-cons (key scancode) is = omega arith
