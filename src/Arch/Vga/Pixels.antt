-- ===== src/Arch/Vga/Pixels.antt =====
-- Which pixels `fill_rect` of kernel/src/arch/x86_64/vga.rs paints.
use aetheros_rust_project.Prelude.{
  ℕ, zero, suc, ◌+◌, ◌-◌, ◌*◌, ◌/◌, ◌^◌, ◌≤◌, ◌<◌, ◌≡◌, refl, ◌∙◌, ◌≢◌, Bool, arith, ◌&&◌, ltb, leb,
  ◌==◌, min, if◌then◌else◌, Bool-cases, inl, inr, ◌⊎◌,
}
use aetheros_rust_project.Prelude.Words.{add32}
use aetheros_rust_project.BootInfo.{FramebufferInfo}
use aetheros_rust_project.Arch.Vga.{Screen, write_volatile, fill_row, fill_rows, fill_rect}

fill_row-other :
    (row bytes color n px : ℕ) (s : Screen) (o : ℕ)
    → ((q : ℕ) → px ≤ q → q < px + n → o ≢ row + q * bytes)
    → fill_row row bytes color n px s o ≡ s o
unfolding fill_row
fill_row-other row bytes color zero px s o away = refl
fill_row-other row bytes color (suc n) px s o away =
    let rest =
      fill_row-other row bytes color n (suc px) (write_volatile (row + px * bytes) color s) o
        (λ q lo hi. away q (omega arith) (omega arith)) in
    let here = away px (omega arith) (omega arith) in ground (arith, rest, here)

fill_row-keep :
    (row bytes color n px : ℕ) (s : Screen) (o : ℕ)
    → s o ≡ color
    → fill_row row bytes color n px s o ≡ color
unfolding fill_row
fill_row-keep row bytes color zero px s o h = h
fill_row-keep row bytes color (suc n) px s o h =
    fill_row-keep row bytes color n (suc px) (write_volatile (row + px * bytes) color s) o
      (ground arith)

fill_row-hit :
    (row bytes color n px : ℕ) (s : Screen) (q : ℕ)
    → px ≤ q
    → q < px + n
    → fill_row row bytes color n px s (row + q * bytes) ≡ color
unfolding fill_row
fill_row-hit row bytes color zero px s q lo hi = absurd (omega arith)
fill_row-hit row bytes color (suc n) px s q lo hi = elim (Bool-cases (q == px)) [
  | inl here ↦
      fill_row-keep row bytes color n (suc px) (write_volatile (row + px * bytes) color s)
        (row + q * bytes) (let e : q ≡ px = ground arith in rw e (ground arith))
  | inr later ↦
      fill_row-hit row bytes color n (suc px) (write_volatile (row + px * bytes) color s) q
        (ground arith) (omega arith)
]

fill_rows-other :
    (pitch bytes color x n m py : ℕ) (s : Screen) (o : ℕ)
    → ((r q : ℕ) → py ≤ r → r < py + m → x ≤ q → q < x + n → o ≢ r * pitch + q * bytes)
    → fill_rows pitch bytes color x n m py s o ≡ s o
unfolding fill_rows
fill_rows-other pitch bytes color x n zero py s o away = refl
fill_rows-other pitch bytes color x n (suc m) py s o away =
    fill_rows-other pitch bytes color x n m (suc py) (fill_row (py * pitch) bytes color n x s) o
      (λ r q lo hi. away r q (omega arith) (omega arith))
    ∙ fill_row-other (py * pitch) bytes color n x s o (λ q. away py q (omega arith) (omega arith))

fill_rows-keep :
    (pitch bytes color x n m py : ℕ) (s : Screen) (o : ℕ)
    → s o ≡ color
    → fill_rows pitch bytes color x n m py s o ≡ color
unfolding fill_rows
fill_rows-keep pitch bytes color x n zero py s o h = h
fill_rows-keep pitch bytes color x n (suc m) py s o h =
    fill_rows-keep pitch bytes color x n m (suc py) (fill_row (py * pitch) bytes color n x s) o
      (fill_row-keep (py * pitch) bytes color n x s o h)

fill_rows-hit :
    (pitch bytes color x n m py : ℕ) (s : Screen) (r q : ℕ)
    → py ≤ r
    → r < py + m
    → x ≤ q
    → q < x + n
    → fill_rows pitch bytes color x n m py s (r * pitch + q * bytes) ≡ color
unfolding fill_rows
fill_rows-hit pitch bytes color x n zero py s r q lo hi lo' hi' = absurd (omega arith)
fill_rows-hit pitch bytes color x n (suc m) py s r q lo hi lo' hi' = elim (Bool-cases (r == py)) [
  | inl here ↦
      fill_rows-keep pitch bytes color x n m (suc py) (fill_row (py * pitch) bytes color n x s)
        (r * pitch + q * bytes)
        (let e : r ≡ py = ground arith in
          rw e (fill_row-hit (py * pitch) bytes color n x s q lo' hi'))
  | inr later ↦
      fill_rows-hit pitch bytes color x n m (suc py) (fill_row (py * pitch) bytes color n x s) r q
        (ground arith) (omega arith) lo' hi'
]

fill_row-colour :
    (row bytes color n px : ℕ) (s : Screen) (o : ℕ)
    → (fill_row row bytes color n px s o ≡ color) ⊎ (fill_row row bytes color n px s o ≡ s o)
unfolding fill_row
fill_row-colour row bytes color zero px s o = inr refl
fill_row-colour row bytes color (suc n) px s o = ground (
  arith,
  fill_row-colour row bytes color n (suc px) (write_volatile (row + px * bytes) color s) o,
)

fill_rows-colour :
    (pitch bytes color x n m py : ℕ) (s : Screen) (o : ℕ)
    → (fill_rows pitch bytes color x n m py s o ≡ color)
      ⊎ (fill_rows pitch bytes color x n m py s o ≡ s o)
unfolding fill_rows
fill_rows-colour pitch bytes color x n zero py s o = inr refl
fill_rows-colour pitch bytes color x n (suc m) py s o = ground (
  arith,
  fill_rows-colour pitch bytes color x n m (suc py) (fill_row (py * pitch) bytes color n x s) o,
  fill_row-colour (py * pitch) bytes color n x s o,
)

row-lt : (r r' p : ℕ) → r < r' → r * p + p ≤ r' * p
row-lt r zero p h = absurd (omega arith)
row-lt r (suc r') p h = elim (Bool-cases (r == r')) [
  | inl e ↦ let same : r ≡ r' = ground arith in rw same (omega arith)
  | inr ne ↦ omega (arith, row-lt r r' p (ground arith))
]

-- 32 bits for each pixel, and rows that do not overlap.
pub record IsFramebuffer (info : FramebufferInfo) : Type 0 where
  pub depth : info.bpp ≡ 32
  pub rows : info.width * 4 ≤ info.pitch

-- The offset of a pixel.
abbrev pub pixel : FramebufferInfo → ℕ → ℕ → ℕ
pixel info px py = py * info.pitch + px * 4

-- Two pixels of one framebuffer have different offsets.
pixel-injective :
    (p r r' q q' : ℕ)
    → q * 4 + 4 ≤ p
    → q' * 4 + 4 ≤ p
    → r * p + q * 4 ≡ r' * p + q' * 4
    → (r ≡ r') × (q ≡ q')
pixel-injective p r r' q q' h h' e = elim (Bool-cases (ltb r r')) [
  | inl up ↦ absurd (omega (arith, row-lt r r' p (ground arith)))
  | inr up ↦ elim (Bool-cases (ltb r' r)) [
    | inl down ↦ absurd (omega (arith, row-lt r' r p (ground arith)))
    | inr down ↦
        let same : r ≡ r' = ground arith in
        (same, (let e' : r' * p + q * 4 ≡ r' * p + q' * 4 = rw same at e in omega arith))
  ]
]

abbrev pub in_rect : (x y width height px py : ℕ) → Bool
in_rect x y width height px py = leb x px && ltb px (x + width) && leb y py && ltb py (y + height)

-- On a framebuffer of 32 bits for each pixel, a rectangle that does not wrap around paints the pixels of the framebuffer that lie in it, and
-- leaves the framebuffer's other pixels as they were.
pub fill_rect-pixel :
    (info : FramebufferInfo) (x y width height color px py : ℕ) (s : Screen)
    → IsFramebuffer info
    → x + width < 2 ^ 32
    → y + height < 2 ^ 32
    → px < info.width
    → py < info.height
    → fill_rect info x y width height color s (pixel info px py)
      ≡ (if in_rect x y width height px py then color else s (pixel info px py))
unfolding fill_rect
fill_rect-pixel info x y width height color px py s v nx ny hx hy =
    let max_x = min (add32 x width) info.width in
    let max_y = min (add32 y height) info.height in
    let right : add32 x width ≡ x + width = omega arith in
    let low : add32 y height ≡ y + height = omega arith in
    let bytes : info.bpp / 8 ≡ 4 = rw v.depth refl in
    let rows = v.rows in
    elim (Bool-cases (in_rect x y width height px py)) [
      | inl inside ↦
          let hit =
            fill_rows-hit info.pitch 4 color x (max_x - x) (max_y - y) y s py px (ground arith)
              (ground arith) (ground arith) (ground arith) in
          rw (bytes, inside) (ground (arith, hit))
      | inr outside ↦
          let miss =
            fill_rows-other info.pitch 4 color x (max_x - x) (max_y - y) y s (pixel info px py)
              (λ r q lo hi lo' hi' e.
                let (er, eq) = pixel-injective info.pitch py r px q (omega arith) (omega arith) e in
                ground arith) in
          rw (bytes, outside) (ground (arith, miss))
    ]

-- On a framebuffer of 32 bits for each pixel, no rectangle, even one that wraps around, changes anything but pixels of the framebuffer.
pub fill_rect_elsewhere :
    (info : FramebufferInfo) (x y width height color : ℕ) (s : Screen) (o : ℕ)
    → IsFramebuffer info
    → ((px py : ℕ) → px < info.width → py < info.height → o ≢ pixel info px py)
    → fill_rect info x y width height color s o ≡ s o
unfolding fill_rect
fill_rect_elsewhere info x y width height color s o v away =
    let max_x = min (add32 x width) info.width in
    let max_y = min (add32 y height) info.height in
    let bytes : info.bpp / 8 ≡ 4 = rw v.depth refl in
    let miss =
      fill_rows-other info.pitch 4 color x (max_x - x) (max_y - y) y s o
        (λ r q lo hi lo' hi'. away q r (omega arith) (omega arith)) in
    rw bytes (ground (arith, miss))

-- Whatever the rectangle, a word of the screen keeps its colour or takes the rectangle's.
pub fill_rect-colour :
    (info : FramebufferInfo) (x y width height color : ℕ) (s : Screen) (o : ℕ)
    → (fill_rect info x y width height color s o ≡ color)
      ⊎ (fill_rect info x y width height color s o ≡ s o)
unfolding fill_rect
fill_rect-colour info x y width height color s o =
    let max_x = min (add32 x width) info.width in
    let max_y = min (add32 y height) info.height in
    ground (arith, fill_rows-colour info.pitch (info.bpp / 8) color x (max_x - x) (max_y - y) y s o)
