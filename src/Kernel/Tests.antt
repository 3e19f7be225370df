-- ===== src/Kernel/Tests.antt =====
-- The kernel from boot on, with a few interrupts. Numbers are printed as one character.
use aetheros_rust_project.Prelude.{
  ℕ, ◌≡◌, refl, List, [], ◌∷◌, Option, none, some, arith, All, ◌==◌, if◌then◌else◌,
}
use aetheros_rust_project.Prelude.Text.{Text, codes}
use aetheros_rust_project.BootInfo.{BootInfo}
use aetheros_rust_project.Drivers.Keyboard
use aetheros_rust_project.Arch.Vga.{Screen}
use aetheros_rust_project.Kernel.{Machine, Interrupt, tick, key, run}
use aetheros_rust_project.Kernel.Init.{at_boot, initialize, initialize_among}
use aetheros_rust_project.Kernel.Run.{Ran, run-Ran}
use aetheros_rust_project.Kernel.Boot.{Started, initialize-Started}
use aetheros_rust_project.Kernel.Invariant.{IsByte, IsValid, run-IsValid}
use aetheros_rust_project.Kernel.Among.{
  Initialized, initialize_among-Initialized, initialize_among-IsValid,
}
use aetheros_rust_project.Kernel.Typing.{IsReady, typed, press_all, run-typed}

abbrev digit : ℕ → Text
digit n = n ∷ []

abbrev plain : Option Text → Text
plain none = codes "None"
plain (some name) = name

abbrev address : ℕ → ℕ
address a = a

abbrev dark : Screen
dark o = 0

abbrev information : BootInfo
information = record {
  hhdm_offset = 0xffff_8000_0000_0000;
  memory_map_entries = 0;
  memory_regions = [];
  framebuffer = none;
}

abbrev machine : Machine ℕ
machine = initialize address 0x20_0000 0xff 0xff digit digit plain information (at_boot ℕ dark)

-- `h`, two timer interrupts in between, and `I` with shift.
abbrev interrupts : List Interrupt
interrupts = key 0x23 ∷ tick ∷ key 0xA3 ∷ key 0x2A ∷ tick ∷ key 0x17 ∷ tick ∷ []

machine-Started : Started address 0x20_0000 0xff 0xff digit digit plain information machine
machine-Started = initialize-Started address 0x20_0000 0xff 0xff digit digit plain information dark

machine-IsReady : IsReady machine
unfolding Keyboard.initialize
machine-IsReady = record {
  keyboard = rw (machine-Started.keyboard, Keyboard.initialize) refl;
  shell = rw machine-Started.shell refl;
  valid = rw machine-Started.shell (record { sized = refl; bounded = omega arith });
}

run-Ran_example : Ran 3 7 machine (run digit plain interrupts machine)
run-Ran_example = run-Ran digit plain interrupts machine (rw machine-Started.ticks (omega arith))

run-typed_example :
    IsReady (run digit plain interrupts machine)
    × (typed (run digit plain interrupts machine) ≡ press_all interrupts (typed machine))
run-typed_example = run-typed digit plain interrupts machine machine-IsReady

-- A timer interrupt before each call and a key in the middle, and `interrupts` at the end.
abbrev arriving : ℕ → List Interrupt
arriving n = if n == 8 then interrupts else tick ∷ (if n == 5 then key 0x1E ∷ [] else [])

abbrev among : Machine ℕ
among =
    initialize_among address 0x20_0000 0xff 0xff digit digit plain arriving information
      (at_boot ℕ dark)

initialize_among-Initialized_example :
    Initialized address 0x20_0000 0xff 0xff arriving information among
initialize_among-Initialized_example =
    initialize_among-Initialized address 0x20_0000 0xff 0xff digit digit plain arriving information
      dark

bytes : All IsByte interrupts
bytes = (omega arith, (tt, (omega arith, (omega arith, (tt, (omega arith, (tt, tt)))))))

among-IsValid : IsValid among
among-IsValid =
    initialize_among-IsValid address 0x20_0000 0xff 0xff digit digit plain arriving information dark
      bytes

initialize_among-IsValid_example : IsValid among
initialize_among-IsValid_example =
    initialize_among-IsValid address 0x20_0000 0xff 0xff digit digit plain arriving information dark
      bytes

run-IsValid_example : IsValid (run digit plain interrupts among)
run-IsValid_example = run-IsValid digit plain interrupts among bytes among-IsValid
