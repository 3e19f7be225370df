-- ===== src/Kernel/Locks/Tests.antt =====
-- The hundredth tick, with every lock free, and with the serial port's held.
use aetheros_rust_project.Prelude.{◌≡◌, refl, ◌↔◌, true, false, [], ◌∷◌, none, some}
use aetheros_rust_project.Kernel.Locks.{
  scheduler, serial, pics, sections, System, timer_locks, set_held,
}
use aetheros_rust_project.Kernel.Locks.Waits.{Returns, is_blocked, timer-Returns_iff}

all_locks : timer_locks 99 true ≡ scheduler ∷ serial ∷ pics ∷ []
unfolding timer_locks
all_locks = refl

abbrev printing : System
printing = record { held = set_held (λ l. false) serial true; main = []; handler = none }

timer-Returns_iff_example :
    Returns
      (timer_locks 99 true)
      (record printing { handler = some (sections (timer_locks 99 true)) })
    ↔ (is_blocked 99 true printing ≡ false)
timer-Returns_iff_example = timer-Returns_iff 99 true printing

-- The count wraps to 0, which is a multiple of 100.
wraps : timer_locks 0xffff_ffff_ffff_ffff false ≡ scheduler ∷ serial ∷ []
unfolding timer_locks
wraps = refl
