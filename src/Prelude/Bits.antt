-- ===== src/Prelude/Bits.antt =====
-- `bit_and` with a mask whose low bits are clear, as in `x & !(align - 1)`.
use Prim.Native.Nat.{
  ℕ, zero, suc, ◌+◌, ◌-◌, ◌*◌, ◌/◌, ◌%◌, ◌^◌, ◌≤◌, ◌<◌, min, bit_and, digits, bit_and-bitwise,
}
use mathlib.Core.Path.{◌≡◌, refl, ap, ◌∙◌}
use native.Mathlib.Nat.{pow-suc, mul_comm}
use native.Mathlib.Decide.{dec_lt}
use native.Mathlib.Omega.{arith}

-- `bit_and` on fuel, as the native operation is specified.
abbrev masked : (fuel mask x : ℕ) → ℕ
masked fuel mask x = digits (λ rest. zero) min fuel x mask

one_more : (fuel mask x : ℕ) → x ≤ fuel → masked (suc fuel) mask x ≡ masked fuel mask x
one_more zero mask zero fits = refl
one_more zero mask (suc x) fits = absurd (omega arith)
one_more (suc fuel) mask zero fits = refl
one_more (suc fuel) mask (suc x) fits =
    let halves = one_more fuel (mask / 2) (suc x / 2) (omega arith) in omega (arith, halves)

-- Fuel beyond the number itself does not matter.
settled : (fuel mask x : ℕ) → x ≤ fuel → masked fuel mask x ≡ masked x mask x
settled zero mask x fits = let e : x ≡ 0 = omega arith in rw e refl
settled (suc fuel) mask x fits = elim (dec_lt fuel x) [
  | yes full ↦ let e : x ≡ suc fuel = omega arith in rw e refl
  | no spare ↦ one_more fuel mask x (omega arith) ∙ settled fuel mask x (omega arith)
]

-- The lowest binary digit of `bit_and`, and the others.
bit_and_step :
    (x mask : ℕ) → bit_and x mask ≡ 2 * bit_and (x / 2) (mask / 2) + min (x % 2) (mask % 2)
bit_and_step x mask =
    let whole = bit_and-bitwise x mask in
    let upper = bit_and-bitwise (x / 2) (mask / 2) in
    elim (dec_lt 0 x) [
      | no none ↦
          let e : x ≡ 0 = omega arith in
          rw e (omega (arith, bit_and-bitwise 0 mask, bit_and-bitwise 0 (mask / 2)))
      | yes some ↦
          let e : x ≡ suc (x - 1) = omega arith in
          omega (
            arith,
            whole,
            upper,
            opened x mask some,
            settled (x - 1) (mask / 2) (x / 2) (omega arith),
          )
    ]
  where
    opened :
        (x mask : ℕ)
        → 0 < x
        → masked x mask x ≡ 2 * masked (x - 1) (mask / 2) (x / 2) + min (x % 2) (mask % 2)
    opened zero mask h = absurd (omega arith)
    opened (suc x) mask h = let e : suc x - 1 ≡ x = omega arith in rw e (omega arith)

pub two-pow-suc : (n : ℕ) → 2 ^ suc n ≡ 2 * 2 ^ n
two-pow-suc n = pow-suc 2 n ∙ mul_comm (2 ^ n) 2

pub one-le-pow : (n : ℕ) → 1 ≤ 2 ^ n
one-le-pow zero = omega arith
one-le-pow (suc n) = rw two-pow-suc (omega (arith, one-le-pow n))

-- A mask of ones keeps a number that fits it.
bit_and_ones : (w x : ℕ) → x < 2 ^ w → bit_and x (2 ^ w - 1) ≡ x
bit_and_ones zero x h = let e : x ≡ 0 = omega arith in rw e (bit_and-bitwise 0 (2 ^ 0 - 1))
bit_and_ones (suc w) x h =
    let half : (2 ^ suc w - 1) / 2 ≡ 2 ^ w - 1 = omega (arith, two-pow-suc w, one-le-pow w) in
    let rest : bit_and (x / 2) ((2 ^ suc w - 1) / 2) ≡ x / 2 =
      rw half (bit_and_ones w (x / 2) (omega (arith, two-pow-suc w))) in
    omega (arith, bit_and_step x (2 ^ suc w - 1), two-pow-suc w, one-le-pow w, rest)

-- A mask whose `k` low bits are clear rounds down to a multiple of `2 ^ k`.
pub bit_and_clear_low :
    (k w x : ℕ)
    → k ≤ w
    → x < 2 ^ w
    → (q : ℕ) × (r : ℕ) × (x ≡ q * 2 ^ k + r)
      × (r < 2 ^ k)
      × (bit_and x (2 ^ w - 2 ^ k) ≡ q * 2 ^ k)
bit_and_clear_low zero w x h lt =
    (x, 0, omega arith, omega arith, omega (arith, bit_and_ones w x lt))
bit_and_clear_low (suc k) zero x h lt = absurd (omega arith)
bit_and_clear_low (suc k) (suc w) x h lt =
    let (q, r, split, small, rest) =
      bit_and_clear_low k w (x / 2) (omega arith) (omega (arith, two-pow-suc w)) in
    let half : (2 ^ suc w - 2 ^ suc k) / 2 ≡ 2 ^ w - 2 ^ k =
      omega (arith, two-pow-suc w, two-pow-suc k) in
    let upper : bit_and (x / 2) ((2 ^ suc w - 2 ^ suc k) / 2) ≡ q * 2 ^ k = rw half rest in
    let twice : q * 2 ^ suc k ≡ 2 * (q * 2 ^ k) = ap (λ t. q * t) (two-pow-suc k) ∙ omega arith in
    (
      q,
      2 * r + x % 2,
      omega arith,
      omega (arith, two-pow-suc k),
      omega (
        arith,
        bit_and_step x (2 ^ suc w - 2 ^ suc k),
        two-pow-suc w,
        two-pow-suc k,
        upper,
        twice,
      ),
    )

masked_zero : (fuel x : ℕ) → masked fuel 0 x ≡ 0
masked_zero zero x = refl
masked_zero (suc fuel) zero = refl
masked_zero (suc fuel) (suc x) = omega (arith, masked_zero fuel (suc x / 2))

pub bit_and_zero : (x : ℕ) → bit_and x 0 ≡ 0
bit_and_zero x = omega (arith, bit_and-bitwise x 0, masked_zero x x)

low_bit : (x mask : ℕ) → bit_and x (mask * 2 + 1) ≡ 2 * bit_and (x / 2) mask + x % 2
low_bit x mask =
    let half : (mask * 2 + 1) / 2 ≡ mask = omega arith in
    let step : bit_and x (mask * 2 + 1)
        ≡ 2 * bit_and (x / 2) mask + min (x % 2) ((mask * 2 + 1) % 2) =
      rw half at (bit_and_step x (mask * 2 + 1)) in
    omega (arith, step)

-- The mask of the lowest byte.
pub bit_and_low_byte : (x : ℕ) → bit_and x 0xFF ≡ x % 256
bit_and_low_byte x = omega (
  arith,
  low_bit x 127,
  low_bit (x / 2) 63,
  low_bit (x / 2 / 2) 31,
  low_bit (x / 2 / 2 / 2) 15,
  low_bit (x / 2 / 2 / 2 / 2) 7,
  low_bit (x / 2 / 2 / 2 / 2 / 2) 3,
  low_bit (x / 2 / 2 / 2 / 2 / 2 / 2) 1,
  low_bit (x / 2 / 2 / 2 / 2 / 2 / 2 / 2) 0,
  bit_and_zero (x / 2 / 2 / 2 / 2 / 2 / 2 / 2 / 2),
)
