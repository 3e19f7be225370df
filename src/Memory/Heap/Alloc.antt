-- ===== src/Memory/Heap/Alloc.antt =====
-- What `alloc` of kernel/src/memory/heap.rs promises to one caller.
use native.Mathlib.Decide.{dec_lt}
use native.Mathlib.Nat.{pow-le-pow_right}
use aetheros_rust_project.Prelude.{
  ℕ, ◌+◌, ◌-◌, ◌*◌, ◌^◌, ◌≤◌, ◌<◌, ◌≡◌, subst, sym, ap, ap₂, ◌∙◌, bit_and, ◌⊎◌, inl, inr, none,
  some, arith, Option-cases,
}
use aetheros_rust_project.Prelude.Bits.{bit_and_clear_low, one-le-pow}
use aetheros_rust_project.Prelude.Words.{u64_mod, u64_max, add64, and_not64}
use aetheros_rust_project.Memory.Heap.{BumpAllocator, Layout, Proposal, propose, alloc}

-- The documented contract of `Layout`: the alignment is a power of two, below 2 ^ 63.
pub record IsLayout (l : Layout) : Type 0 where
  pub shift : ℕ
  pub power : l.align ≡ 2 ^ shift
  pub small : shift < 64

-- A multiple of the alignment.
abbrev pub IsAligned : Layout → ℕ → Type 0
IsAligned l p = (q : ℕ) × (p ≡ q * l.align)

multiple-le : (n q m : ℕ) → n * m < q * m + m → n * m ≤ q * m
multiple-le n q m h = elim (dec_lt q n) [ yes p ↦ absurd (grind arith) | no p ↦ grind arith ]

-- Rounding up stays on u64 and gives the least multiple that is not below.
round_up :
    (c : ℕ) (l : Layout)
    → IsLayout l
    → c + l.align ≤ u64_mod
    → let a = and_not64 (add64 c (l.align - 1)) (l.align - 1) in
      (q : ℕ) × (a ≡ q * l.align) × (c ≤ a) × (a < c + l.align)
round_up c l ok fits =
    let pos = one-le-pow ok.shift in
    let (q, r, split, small, e) =
      bit_and_clear_low ok.shift 64 (c + (l.align - 1)) (omega (arith, ok.small))
        (omega (arith, ok.power, pos)) in
    let sum : add64 c (l.align - 1) ≡ c + (l.align - 1) = omega (arith, ok.power, pos) in
    let mask : u64_max - (l.align - 1) ≡ 2 ^ 64 - 2 ^ ok.shift = omega (arith, ok.power, pos) in
    let rounded : and_not64 (add64 c (l.align - 1)) (l.align - 1) ≡ q * 2 ^ ok.shift =
      ap₂ bit_and sum mask ∙ e in
    let times : q * l.align ≡ q * 2 ^ ok.shift = ap (λ t. q * t) ok.power in
    (q, rounded ∙ sym times, omega (arith, ok.power), omega (arith, ok.power))

pub record IsValid (b : BumpAllocator) : Type 0 where
  pub ready : 0 < b.heap_start
  pub started : b.heap_start ≤ b.next
  pub ended : b.next ≤ b.heap_end

-- A block in front of `next`, which it moves to its end.
pub record IsFresh (b : BumpAllocator) (l : Layout) (p : Proposal) : Type 0 where
  pub aligned : IsAligned l p.aligned
  pub above : b.next ≤ p.aligned
  pub size : p.next ≡ p.aligned + l.size
  pub below : p.next ≤ b.heap_end

-- Every aligned block of that size in front of `next` runs past the end of the heap.
abbrev pub HasNoRoom : BumpAllocator → Layout → Type 0
HasNoRoom b l = (q : ℕ) → b.next ≤ q * l.align → b.heap_end < q * l.align + l.size

module _ (b : BumpAllocator) (l : Layout) (v : IsValid b) (ok : IsLayout l)
    (fits : b.heap_end + l.align ≤ u64_mod) where
  pub propose-some : {p : Proposal} → propose b.next b.heap_end l ≡ some p → IsFresh b l p
  unfolding propose
  propose-some {p} e =
      let (q, a, lo, hi) = round_up b.next l ok (omega arith) in
      record {
        aligned = (q, ground (arith, a));
        above = ground arith;
        size = ground arith;
        below = ground arith;
      }

  pub propose-none : propose b.next b.heap_end l ≡ none → HasNoRoom b l
  unfolding propose
  propose-none e q h =
      let (n, a, lo, hi) = round_up b.next l ok (omega arith) in
      ground (arith, v.ready, multiple-le n q l.align (omega arith))

-- A call of `alloc` on a valid heap, for a size and a power of two as alignment that the heap's end
-- leaves room for below 2^64, either hands out an aligned block that lies behind all earlier
-- ones and inside the heap, and moves `next` to its end; or it returns null and changes nothing, and
-- then no aligned block of the size is left.
pub alloc_lem :
    (b : BumpAllocator) (l : Layout)
    → IsValid b
    → IsLayout l
    → b.heap_end + l.align ≤ u64_mod
    → ((p : Proposal) × (alloc b l ≡ (p.aligned, record b { next = p.next })) × IsFresh b l p)
      ⊎ ((alloc b l ≡ (0, b)) × HasNoRoom b l)
unfolding alloc
alloc_lem b l v ok fits = elim (Option-cases (propose b.next b.heap_end l)) [
  | inl e ↦ inr (rw (e, alloc), propose-none b l v ok fits e)
  | inr (p, e) ↦ inl (p, rw (e, alloc), propose-some b l v ok fits e)
]

-- Rounding up wraps to 0 where the sum passes the end of the address space.
round_up_wraps :
    (c : ℕ) (l : Layout)
    → IsLayout l
    → c < u64_mod
    → u64_mod ≤ c + (l.align - 1)
    → and_not64 (add64 c (l.align - 1)) (l.align - 1) ≡ 0
round_up_wraps c l ok lt over =
    let pos = one-le-pow ok.shift in
    let top : 2 ^ ok.shift ≤ 2 ^ 63 =
      pow-le-pow_right (omega arith) {i = ok.shift} {j = 63} (omega (arith, ok.small)) in
    let sum : add64 c (l.align - 1) ≡ c + (l.align - 1) - u64_mod = omega (arith, ok.power) in
    let (q, r, split, small, e) =
      bit_and_clear_low ok.shift 64 (c + (l.align - 1) - u64_mod) (omega (arith, ok.small))
        (omega (arith, ok.power)) in
    let mask : u64_max - (l.align - 1) ≡ 2 ^ 64 - 2 ^ ok.shift = omega (arith, ok.power, pos) in
    ap₂ bit_and sum mask
    ∙ e
    ∙ omega (arith, multiple-le q 0 (2 ^ ok.shift) (omega (arith, ok.power)))

-- On a valid heap below the end of the address space, with a request smaller than the address at which the
-- heap starts: where rounding `next` up to the alignment passes the end of the address space, the unchecked
-- sum wraps: `alloc` returns null, and leaves `next` at the size of the request, so that the heap is
-- not valid any more.
pub alloc_wraps :
    (b : BumpAllocator) (l : Layout)
    → IsValid b
    → IsLayout l
    → b.next < u64_mod
    → u64_mod ≤ b.next + (l.align - 1)
    → l.size < b.heap_start
    → b.heap_end < u64_mod
    → (alloc b l ≡ (0, record b { next = l.size })) × (¬ IsValid (alloc b l).1)
unfolding alloc
alloc_wraps b l v ok lt over fits top =
    let wrapped : alloc b l ≡ (0, record b { next = l.size }) =
      ground (arith, v.ready, v.started, v.ended, round_up_wraps b.next l ok lt over) in
    (
      wrapped,
      λ still.
          let low : IsValid (record b { next = l.size }) =
            subst (λ (r : ℕ × BumpAllocator). IsValid r.1) wrapped still in
          omega (arith, low.started),
    )
