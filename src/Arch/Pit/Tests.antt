-- ===== src/Arch/Pit/Tests.antt =====
-- The timer at the kernel's rate.
use aetheros_rust_project.Prelude.{◌≡◌, refl}
use aetheros_rust_project.Arch.Pit.{divisor}

hundred_hertz : divisor 100 ≡ 11931
unfolding divisor
hundred_hertz = refl
