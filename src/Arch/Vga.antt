-- ===== src/Arch/Vga.antt =====
-- kernel/src/arch/x86_64/vga.rs: the boot screen, drawn with 32-bit stores into the framebuffer. A
-- screen gives the word at each offset from the framebuffer's address. The message that is printed
-- for another depth than 32 bits is in `Shell.redraw_on`.
pub mod Pixels
pub mod Palette
mod Tests
use aetheros_rust_project.Prelude.{
  ℕ, zero, suc, ◌+◌, ◌-◌, ◌*◌, ◌/◌, ◌%◌, not, ◌||◌, ◌==◌, min, if◌then◌else◌,
}
use aetheros_rust_project.Prelude.Words.{add32, u32_mod, u32_max}
use aetheros_rust_project.BootInfo.{FramebufferInfo}

abbrev pub background : ℕ
background = 0x0B1020

abbrev pub panel : ℕ
panel = 0x121A31

abbrev pub panel_border : ℕ
panel_border = 0x2F4F8F

abbrev pub accent : ℕ
accent = 0x62D0FF

abbrev pub accent_muted : ℕ
accent_muted = 0x24415F

abbrev pub success : ℕ
success = 0x6EE7B7

abbrev pub footer : ℕ
footer = 0x0A0F1D

abbrev pub Screen : Type 0
Screen = ℕ → ℕ

-- `base.add(offset).write_volatile(color)`
abbrev pub write_volatile : ℕ → ℕ → Screen → Screen
write_volatile offset color s = λ o. if o == offset then color else s o

-- The inner loop, from `px` on for `n` pixels.
unfoldable pub fill_row : (row_offset bytes_per_pixel color n px : ℕ) → Screen → Screen
fill_row row bytes color zero px s = s
fill_row row bytes color (suc n) px s =
    fill_row row bytes color n (suc px) (write_volatile (row + px * bytes) color s)

-- The outer loop, from `py` on for `m` rows.
unfoldable pub fill_rows : (pitch bytes_per_pixel color x n m py : ℕ) → Screen → Screen
unfolding fill_row
fill_rows pitch bytes color x n zero py s = s
fill_rows pitch bytes color x n (suc m) py s =
    fill_rows pitch bytes color x n m (suc py) (fill_row (py * pitch) bytes color n x s)

unfoldable pub fill_rect : FramebufferInfo → (x y width height color : ℕ) → Screen → Screen
unfolding fill_rows
fill_rect info x y width height color s =
    if width == 0 || height == 0
    then s
    else let max_x = min (add32 x width) info.width in
      let max_y = min (add32 y height) info.height in
      fill_rows info.pitch (info.bpp / 8) color x (max_x - x) (max_y - y) y s

unfoldable pub clear : FramebufferInfo → ℕ → Screen → Screen
clear info color s = fill_rect info 0 0 info.width info.height color s

unfoldable pub stroke_rect :
    FramebufferInfo → (x y width height thickness color : ℕ) → Screen → Screen
stroke_rect info x y width height thickness color s =
    let s₁ = fill_rect info x y width thickness color s in
    let s₂ = fill_rect info x (add32 y (height - thickness)) width thickness color s₁ in
    let s₃ = fill_rect info x y thickness height color s₂ in
    fill_rect info (add32 x (width - thickness)) y thickness height color s₃

unfoldable pub draw_mark : FramebufferInfo → (x y size color : ℕ) → Screen → Screen
draw_mark info x y size color s =
    let third = size / 3 in
    let s₁ = fill_rect info x (add32 y third) third (size - third) color s in
    let s₂ = fill_rect info (add32 x third) y third size color s₁ in
    fill_rect info (add32 x ((third * 2) % u32_mod)) (add32 y third) third (size - third) color s₂

unfoldable pub draw_progress : FramebufferInfo → (x y width height : ℕ) → Screen → Screen
draw_progress info x y width height s =
    let s₁ = fill_rect info x y width height accent_muted s in
    let filled = min (width * 2) u32_max / 5 in
    let s₂ = fill_rect info x y filled height accent s₁ in
    let marker_width : ℕ = 14 in
    let marker_x = add32 x (filled - marker_width / 2) in
    fill_rect info marker_x (y - 4) marker_width (add32 height 8) success s₂

unfoldable pub render_boot_visual : FramebufferInfo → Screen → Screen
render_boot_visual info s =
    if not (info.bpp == 32)
    then s
    else let s₁ = clear info background s in
      let s₂ = fill_rect info 0 0 info.width 28 accent_muted s₁ in
      let s₃ = fill_rect info 0 (info.height - 18) info.width 18 panel s₂ in
      let panel_width = info.width - 120 in
      let panel_height = min info.height 220 in
      let panel_x : ℕ = 60 in
      let panel_y = (info.height - panel_height) / 2 in
      let inner_x = add32 panel_x 28 in
      let s₄ = fill_rect info panel_x panel_y panel_width panel_height panel s₃ in
      let s₅ = stroke_rect info panel_x panel_y panel_width panel_height 4 panel_border s₄ in
      let s₆ = fill_rect info inner_x (add32 panel_y 28) (panel_width - 56) 10 accent s₅ in
      let s₇ = fill_rect info inner_x (add32 panel_y 58) (panel_width - 140) 18 success s₆ in
      let s₈ = fill_rect info inner_x (add32 panel_y 92) (panel_width - 72) 10 accent_muted s₇ in
      let s₉ = fill_rect info inner_x (add32 panel_y 116) (panel_width - 180) 10 accent_muted s₈ in
      let t₁ = fill_rect info inner_x (add32 panel_y 140) (panel_width - 240) 10 accent_muted s₉ in
      let t₂ = draw_mark info (add32 panel_x (panel_width - 84)) (add32 panel_y 38) 36 accent t₁ in
      let t₃ =
        draw_progress info inner_x (add32 panel_y (panel_height - 42)) (panel_width - 56) 12 t₂ in
      fill_rect info 64 (info.height - 84) (info.width - 128) 48 footer t₃
