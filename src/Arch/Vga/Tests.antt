-- ===== src/Arch/Vga/Tests.antt =====
-- The boot screen on small framebuffers.
use aetheros_rust_project.Prelude.{ℕ, ◌+◌, ◌*◌, ◌<◌, ◌≡◌, refl, ◌≢◌, arith, if◌then◌else◌}
use aetheros_rust_project.BootInfo.{FramebufferInfo}
use aetheros_rust_project.Arch.Vga.{Screen, fill_rect, success}
use aetheros_rust_project.Arch.Vga.Pixels.{IsFramebuffer, pixel, in_rect, fill_rect-pixel}

abbrev tiny : FramebufferInfo
tiny = record { address = 0xfd000000; width = 4; height = 3; pitch = 20; bpp = 32 }

tiny-IsFramebuffer : IsFramebuffer tiny
tiny-IsFramebuffer = record { depth = refl; rows = omega arith }

abbrev black : Screen
black = λ o. 0

paints : fill_rect tiny 1 1 2 9 success black 24 ≡ success
unfolding fill_rect
paints = refl

clips : fill_rect tiny 3 1 2 9 success black 36 ≡ 0
unfolding fill_rect
clips = refl

fill_rect-pixel_example :
    fill_rect tiny 1 1 2 9 success black (pixel tiny 1 1)
    ≡ (if in_rect 1 1 2 9 1 1 then success else black (pixel tiny 1 1))
fill_rect-pixel_example =
    fill_rect-pixel tiny 1 1 2 9 success 1 1 black tiny-IsFramebuffer (omega arith) (omega arith)
      (omega arith) (omega arith)

-- The padding behind the second row.
padding_away : (px py : ℕ) → px < 4 → py < 3 → 36 ≢ py * 20 + px * 4
padding_away px py hx hy = λ e. omega arith
