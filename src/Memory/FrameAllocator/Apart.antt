-- ===== src/Memory/FrameAllocator/Apart.antt =====
-- The frames of kernel/src/memory/frame_allocator.rs do not overlap, if the usable regions of the
-- memory map are sorted and disjoint.
use aetheros_rust_project.Prelude.{
  ℕ, zero, suc, ◌+◌, ◌-◌, ◌*◌, ◌/◌, ◌≤◌, ◌≡◌, ◌∙◌, inl, inr, true, List, [], ◌∷◌, ◌++◌, none, some,
  refl, sym, ap, append_assoc, arith, take, All, All-append, All-map, All-split, Option-cases,
  if◌then◌else◌, subst,
}
use aetheros_rust_project.BootInfo.{BootInfo, MemoryRegion}
use aetheros_rust_project.Memory.FrameAllocator.Align.{frame_size}
use aetheros_rust_project.Memory.FrameAllocator.Frames.{remaining, frames, all_frames}
use aetheros_rust_project.Memory.FrameAllocator.Initialize.{usable_range, usable_ranges, IsMapped}
use aetheros_rust_project.Memory.FrameAllocator.Safety.{
  Contributes, usable_range-Contributes, frames-within, initialize-IsValid,
}
use aetheros_rust_project.Memory.FrameAllocator.{
  UsableFrameRange, FrameAllocator, Statics, is_usable, mapped_regions, initialize,
  max_usable_ranges,
}

-- Each frame ends before the later ones begin.
abbrev pub Apart : List ℕ → Type 0
Apart [] = Unit
Apart (x ∷ xs) = All (λ y. x + frame_size ≤ y) xs × Apart xs

-- Where the usable memory seen so far ends.
abbrev pub floor_after : ℕ → MemoryRegion → ℕ
floor_after lo r = if is_usable r.kind then r.base + r.length else lo

-- The usable regions are sorted, disjoint and not below `lo`.
abbrev pub Ordered : ℕ → List MemoryRegion → Type 0
Ordered lo [] = Unit
Ordered lo (r ∷ rs) = (is_usable r.kind ≡ true → lo ≤ r.base) × Ordered (floor_after lo r) rs

frames-Apart : (s n : ℕ) → Apart (frames s n)
frames-Apart s zero = tt
frames-Apart s (suc n) = (
  All-map (λ y h. h.0) (frames (s + frame_size) n)
      (frames-within (s + frame_size) n (s + frame_size) (s + frame_size + n * frame_size)
        (omega arith) (omega arith)),
  frames-Apart (s + frame_size) n,
)

Apart-append :
    (mid : ℕ) (xs ys : List ℕ)
    → All (λ x. x + frame_size ≤ mid) xs
    → All (λ y. mid ≤ y) ys
    → Apart xs
    → Apart ys
    → Apart (xs ++ ys)
Apart-append mid [] ys hx hy ax ay = ay
Apart-append mid (x ∷ xs) ys hx hy ax ay = (
  All-append (λ y. x + frame_size ≤ y) xs ys ax.0 (All-map (λ y h. omega (arith, hx.0)) ys hy),
  Apart-append mid xs ys hx.1 hy ax.1 ay,
)

Apart-left : (xs ys : List ℕ) → Apart (xs ++ ys) → Apart xs
Apart-left [] ys h = tt
Apart-left (x ∷ xs) ys h = ((All-split (λ y. x + frame_size ≤ y) xs ys h.0).0, Apart-left xs ys h.1)

-- The frames of one range, in front of those that are not below its region's end.
range-Apart :
    (lo : ℕ) (r : MemoryRegion) (g : UsableFrameRange) (fs : List ℕ)
    → Contributes r g
    → lo ≤ r.base
    → All (λ f. r.base + r.length ≤ f) fs
    → Apart fs
    → All (λ f. lo ≤ f) (frames g.start ((g.end - g.start) / frame_size) ++ fs)
      × Apart (frames g.start ((g.end - g.start) / frame_size) ++ fs)
range-Apart lo r g fs c l hi ap = (
  All-append (λ f. lo ≤ f) block fs (All-map (λ f h. omega arith) block inside)
      (All-map (λ f h. omega arith) fs hi),
  Apart-append (r.base + r.length) block fs (All-map (λ f h. h.1) block inside) hi
      (frames-Apart g.start ((g.end - g.start) / frame_size)) ap,
)
  where
    block : List ℕ
    block = frames g.start ((g.end - g.start) / frame_size)

    inside : All (λ f. (r.base ≤ f) × (f + frame_size ≤ r.base + r.length)) block
    inside =
        frames-within g.start ((g.end - g.start) / frame_size) r.base (r.base + r.length) c.above
          (omega (arith, c.below, c.range.nonempty))

-- Over a sorted map all frames lie above `lo`, apart from one another.
usable_ranges-Apart :
    (lo : ℕ) (rs : List MemoryRegion)
    → All IsMapped rs
    → Ordered lo rs
    → All (λ f. lo ≤ f) (all_frames (usable_ranges rs)) × Apart (all_frames (usable_ranges rs))
usable_ranges-Apart lo [] m o = (tt, tt)
usable_ranges-Apart lo (r ∷ rs) m o = elim (Option-cases (usable_range r)) [
  | inl skip ↦
      let (above, ap) = usable_ranges-Apart (floor_after lo r) rs m.1 o.1 in
      rw skip (All-map (λ f h. ground (arith, o.0)) _ above, ap)
  | inr (g, e) ↦
      let c = usable_range-Contributes r m.0 e in
      let counts : is_usable r.kind ≡ true = rw c.kind in
      let (above, ap) = usable_ranges-Apart (floor_after lo r) rs m.1 o.1 in
      rw e (
        range-Apart lo r g (all_frames (usable_ranges rs)) c (o.0 counts)
          (All-map (λ f h. ground arith) _ above) ap)
]

all_frames-take :
    (n : ℕ) (gs : List UsableFrameRange)
    → (rest : List ℕ) × (all_frames gs ≡ all_frames (take n gs) ++ rest)
all_frames-take zero gs = (all_frames gs, refl)
all_frames-take (suc n) [] = ([], refl)
all_frames-take (suc n) (g ∷ gs) =
    let block = frames g.start ((g.end - g.start) / frame_size) in
    let (rest, e) = all_frames-take n gs in
    (rest, ap (◌++◌ block) e ∙ sym (append_assoc block (all_frames (take n gs)) rest))

-- After the first `initialize`, over a sorted and disjoint map whose entries end below the end
-- of the address space, no two frames that the allocator has to hand out overlap.
pub initialize-Apart :
    (b : BootInfo) (st : Statics) {a : FrameAllocator}
    → All IsMapped (mapped_regions b)
    → Ordered 0 (mapped_regions b)
    → st.allocator ≡ none
    → (initialize b st).allocator ≡ some a
    → Apart (remaining a)
initialize-Apart b st {a} m o fresh e =
    let (a', e', v, r) = initialize-IsValid b st m fresh in
    let same : a' ≡ a = cc in
    let gs = usable_ranges (mapped_regions b) in
    let (rest, split) = all_frames-take max_usable_ranges gs in
    let all = (usable_ranges-Apart 0 (mapped_regions b) m o).1 in
    subst (λ x. Apart (remaining x)) same
      (rw r (Apart-left (all_frames (take max_usable_ranges gs)) rest (subst Apart split all)))
