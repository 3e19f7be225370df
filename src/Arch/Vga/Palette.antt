-- ===== src/Arch/Vga/Palette.antt =====
-- What `render_boot_visual` of kernel/src/arch/x86_64/vga.rs leaves on the screen.
use aetheros_rust_project.Prelude.{
  ℕ, ◌^◌, ◌<◌, ◌≡◌, refl, ◌∙◌, ap, ◌≢◌, Bool, true, false, not, arith, ◌||◌, ◌==◌, inl, inr,
}
use aetheros_rust_project.BootInfo.{FramebufferInfo}
use aetheros_rust_project.Arch.Vga.{
  Screen, fill_rect, clear, stroke_rect, draw_mark, draw_progress, render_boot_visual, background,
  panel, panel_border, accent, accent_muted, success, footer,
}
use aetheros_rust_project.Arch.Vga.Pixels.{
  IsFramebuffer, pixel, fill_rect-pixel, fill_rect_elsewhere, fill_rect-colour,
}

-- The colours of the boot screen.
abbrev pub in_palette : ℕ → Bool
in_palette c =
    c == background
    || c == panel
    || c == panel_border
    || c == accent
    || c == accent_muted
    || c == success
    || c == footer

-- What drawing in the palette's colours may do to a screen.
record Drawn (info : FramebufferInfo) (s t : Screen) : Type 0 where
  colours : (o : ℕ) → in_palette (s o) ≡ true → in_palette (t o) ≡ true
  elsewhere :
      (o : ℕ)
      → ((px py : ℕ) → px < info.width → py < info.height → o ≢ pixel info px py)
      → t o ≡ s o

module _ (info : FramebufferInfo) (v : IsFramebuffer info) where
  nothing-Drawn : (s : Screen) → Drawn info s s
  nothing-Drawn s = record { colours = λ o h. h; elsewhere = λ o away. refl }

  fill_rect-Drawn :
      (x y width height color : ℕ) {s t : Screen}
      → in_palette color ≡ true
      → Drawn info s t
      → Drawn info s (fill_rect info x y width height color t)
  fill_rect-Drawn x y width height color {s} {t} known d = record {
    colours = λ o h.
        let before = d.colours o h in
        elim (fill_rect-colour info x y width height color t o) [
          | inl new ↦ ap in_palette new ∙ known
          | inr old ↦ ap in_palette old ∙ before
        ];
    elsewhere =
        λ o away. fill_rect_elsewhere info x y width height color t o v away ∙ d.elsewhere o away;
  }

  stroke_rect-Drawn :
      (x y width height thickness color : ℕ) {s t : Screen}
      → in_palette color ≡ true
      → Drawn info s t
      → Drawn info s (stroke_rect info x y width height thickness color t)
  unfolding stroke_rect
  stroke_rect-Drawn x y width height thickness color c d =
      fill_rect-Drawn _ _ _ _ _ c
        (fill_rect-Drawn _ _ _ _ _ c (fill_rect-Drawn _ _ _ _ _ c (fill_rect-Drawn _ _ _ _ _ c d)))

  draw_mark-Drawn :
      (x y size color : ℕ) {s t : Screen}
      → in_palette color ≡ true
      → Drawn info s t
      → Drawn info s (draw_mark info x y size color t)
  unfolding draw_mark
  draw_mark-Drawn x y size color c d =
      fill_rect-Drawn _ _ _ _ _ c (fill_rect-Drawn _ _ _ _ _ c (fill_rect-Drawn _ _ _ _ _ c d))

  draw_progress-Drawn :
      (x y width height : ℕ) {s t : Screen}
      → Drawn info s t
      → Drawn info s (draw_progress info x y width height t)
  unfolding draw_progress
  draw_progress-Drawn x y width height d =
      fill_rect-Drawn _ _ _ _ _ refl
        (fill_rect-Drawn _ _ _ _ _ refl (fill_rect-Drawn _ _ _ _ _ refl d))

  render_boot_visual-Drawn :
      (s : Screen) → Drawn info (clear info background s) (render_boot_visual info s)
  unfolding render_boot_visual
  render_boot_visual-Drawn s =
      let on : not (info.bpp == 32) ≡ false = ground (arith, v.depth) in
      let d₃ =
        fill_rect-Drawn _ _ _ _ _ refl
          (fill_rect-Drawn _ _ _ _ _ refl (nothing-Drawn (clear info background s))) in
      let d₅ = stroke_rect-Drawn _ _ _ _ _ _ refl (fill_rect-Drawn _ _ _ _ _ refl d₃) in
      let d₇ = fill_rect-Drawn _ _ _ _ _ refl (fill_rect-Drawn _ _ _ _ _ refl d₅) in
      let d₉ = fill_rect-Drawn _ _ _ _ _ refl (fill_rect-Drawn _ _ _ _ _ refl d₇) in
      rw on (
        fill_rect-Drawn _ _ _ _ _ refl (
          draw_progress-Drawn _ _ _ _
            (draw_mark-Drawn _ _ _ _ refl (fill_rect-Drawn _ _ _ _ _ refl d₉))))

-- Clearing paints every pixel.
clear-pixel :
    (info : FramebufferInfo) (color px py : ℕ) (s : Screen)
    → IsFramebuffer info
    → info.width < 2 ^ 32
    → info.height < 2 ^ 32
    → px < info.width
    → py < info.height
    → clear info color s (pixel info px py) ≡ color
unfolding clear
clear-pixel info color px py s v w h hx hy = ground (
  arith,
  fill_rect-pixel info 0 0 info.width info.height color px py s v (omega arith) (omega arith) hx hy,
)

-- On a framebuffer of 32 bits for each pixel, whose sizes fit u32, the boot screen gives every pixel
-- one of its seven colours, whatever was there before.
pub render_boot_visual-in_palette :
    (info : FramebufferInfo) (px py : ℕ) (s : Screen)
    → IsFramebuffer info
    → info.width < 2 ^ 32
    → info.height < 2 ^ 32
    → px < info.width
    → py < info.height
    → in_palette (render_boot_visual info s (pixel info px py)) ≡ true
render_boot_visual-in_palette info px py s v w h hx hy =
    (render_boot_visual-Drawn info v s).colours (pixel info px py)
      (rw (clear-pixel info background px py s v w h hx hy) refl)

-- On a framebuffer of 32 bits for each pixel, drawing the boot screen changes nothing but pixels of the framebuffer.
pub render_boot_visual_elsewhere :
    (info : FramebufferInfo) (s : Screen) (o : ℕ)
    → IsFramebuffer info
    → ((px py : ℕ) → px < info.width → py < info.height → o ≢ pixel info px py)
    → render_boot_visual info s o ≡ s o
unfolding clear
render_boot_visual_elsewhere info s o v away =
    (render_boot_visual-Drawn info v s).elsewhere o away
    ∙ fill_rect_elsewhere info 0 0 info.width info.height background s o v away
