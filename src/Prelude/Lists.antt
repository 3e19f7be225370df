-- ===== src/Prelude/Lists.antt =====
-- Rust's fixed-size arrays and slices as lists indexed by native numbers.
use Prim.Native.Nat.{ℕ, zero, suc, ◌+◌, ◌-◌, ◌≤◌, ◌<◌, min}
use mathlib.Core.Path.{◌≡◌, refl, ap}
use mathlib.Core.Logic.{◌≢◌}
use mathlib.Core.List.{List, [], ◌∷◌, ◌++◌}
use mathlib.Core.Option.{Option, none, some}
use native.Mathlib.Omega.{arith}

module _ {ℓ} {A : Type ℓ} where
  abbrev pub length : List A → ℕ
  length [] = 0
  length (x ∷ xs) = suc (length xs)

  abbrev pub get_elem? : List A → ℕ → Option A
  get_elem? [] i = none
  get_elem? (x ∷ xs) zero = some x
  get_elem? (x ∷ xs) (suc i) = get_elem? xs i

  abbrev pub get_or : List A → ℕ → A → A
  get_or [] i d = d
  get_or (x ∷ xs) zero d = x
  get_or (x ∷ xs) (suc i) d = get_or xs i d

  -- A write out of bounds changes nothing.
  abbrev pub set : List A → ℕ → A → List A
  set [] i v = []
  set (x ∷ xs) zero v = v ∷ xs
  set (x ∷ xs) (suc i) v = x ∷ set xs i v

  abbrev pub take : ℕ → List A → List A
  take zero xs = []
  take (suc n) [] = []
  take (suc n) (x ∷ xs) = x ∷ take n xs

  abbrev pub drop : ℕ → List A → List A
  drop zero xs = xs
  drop (suc n) [] = []
  drop (suc n) (x ∷ xs) = drop n xs

  abbrev pub replicate : ℕ → A → List A
  replicate zero a = []
  replicate (suc n) a = a ∷ replicate n a

  -- What holds of every element.
  abbrev pub All {κ} : (A → Type κ) → List A → Type κ
  All P [] = Unit
  All P (x ∷ xs) = P x × All P xs

module _ {ℓ} {A : Type ℓ} where
  pub length-append : (xs ys : List A) → length (xs ++ ys) ≡ length xs + length ys
  length-append [] ys = omega arith
  length-append (x ∷ xs) ys = omega (arith, length-append xs ys)

  pub length-set : (xs : List A) (i : ℕ) (v : A) → length (set xs i v) ≡ length xs
  length-set [] i v = refl
  length-set (x ∷ xs) zero v = refl
  length-set (x ∷ xs) (suc i) v = ap suc (length-set xs i v)

  pub length-drop : (n : ℕ) (xs : List A) → length (drop n xs) ≡ length xs - n
  length-drop zero xs = omega arith
  length-drop (suc n) [] = omega arith
  length-drop (suc n) (x ∷ xs) = omega (arith, length-drop n xs)

  pub length-take : (n : ℕ) (xs : List A) → length (take n xs) ≡ min n (length xs)
  length-take zero xs = omega arith
  length-take (suc n) [] = omega arith
  length-take (suc n) (x ∷ xs) = omega (arith, length-take n xs)

  pub length-replicate : (n : ℕ) (a : A) → length (replicate n a) ≡ n
  length-replicate zero a = refl
  length-replicate (suc n) a = ap suc (length-replicate n a)

  pub get_elem?-set_self :
      (xs : List A) (i : ℕ) (v : A) → i < length xs → get_elem? (set xs i v) i ≡ some v
  get_elem?-set_self [] i v h = elim h [ ]
  get_elem?-set_self (x ∷ xs) zero v h = refl
  get_elem?-set_self (x ∷ xs) (suc i) v h = get_elem?-set_self xs i v (omega arith)

  pub get_elem?-set_ne :
      (xs : List A) (i j : ℕ) (v : A) → i ≢ j → get_elem? (set xs i v) j ≡ get_elem? xs j
  get_elem?-set_ne [] i j v h = refl
  get_elem?-set_ne (x ∷ xs) zero zero v h = absurd (h refl)
  get_elem?-set_ne (x ∷ xs) zero (suc j) v h = refl
  get_elem?-set_ne (x ∷ xs) (suc i) zero v h = refl
  get_elem?-set_ne (x ∷ xs) (suc i) (suc j) v h = get_elem?-set_ne xs i j v (λ e. h (ap suc e))

  pub get_or-eq_of_some :
      (xs : List A) (i : ℕ) (d v : A) → get_elem? xs i ≡ some v → get_or xs i d ≡ v
  get_or-eq_of_some [] i d v h = cc
  get_or-eq_of_some (x ∷ xs) zero d v h = cc
  get_or-eq_of_some (x ∷ xs) (suc i) d v h = get_or-eq_of_some xs i d v h

  -- A copy into the front of a buffer is read back whole.
  pub take-append : (xs ys : List A) → take (length xs) (xs ++ ys) ≡ xs
  take-append [] ys = refl
  take-append (x ∷ xs) ys = ap (◌∷◌ x) (take-append xs ys)

  pub drop-eq-nil : (n : ℕ) (xs : List A) → length xs ≤ n → drop n xs ≡ []
  drop-eq-nil zero [] h = refl
  drop-eq-nil zero (x ∷ xs) h = absurd (omega arith)
  drop-eq-nil (suc n) [] h = refl
  drop-eq-nil (suc n) (x ∷ xs) h = drop-eq-nil n xs (omega arith)

  -- A position below the length splits the rest of the list there.
  pub drop_at :
      (n : ℕ) (xs : List A)
      → n < length xs
      → (x : A) × (get_elem? xs n ≡ some x) × (drop n xs ≡ x ∷ drop (suc n) xs)
  drop_at zero [] h = absurd (omega arith)
  drop_at zero (x ∷ xs) h = (x, refl, refl)
  drop_at (suc n) [] h = absurd (omega arith)
  drop_at (suc n) (x ∷ xs) h = drop_at n xs (omega arith)

  pub get_elem?-take : (n i : ℕ) (xs : List A) → i < n → get_elem? (take n xs) i ≡ get_elem? xs i
  get_elem?-take zero i xs h = absurd (omega arith)
  get_elem?-take (suc n) i [] h = refl
  get_elem?-take (suc n) zero (x ∷ xs) h = refl
  get_elem?-take (suc n) (suc i) (x ∷ xs) h = get_elem?-take n i xs (omega arith)

  pub All-drop {κ} : (P : A → Type κ) (n : ℕ) (xs : List A) → All P xs → All P (drop n xs)
  All-drop P zero xs h = h
  All-drop P (suc n) [] h = tt
  All-drop P (suc n) (x ∷ xs) h = All-drop P n xs h.1

  pub take-eq_self : (n : ℕ) (xs : List A) → length xs ≤ n → take n xs ≡ xs
  take-eq_self zero [] h = refl
  take-eq_self zero (x ∷ xs) h = absurd (omega arith)
  take-eq_self (suc n) [] h = refl
  take-eq_self (suc n) (x ∷ xs) h = ap (◌∷◌ x) (take-eq_self n xs (omega arith))

  pub take-append_left : (n : ℕ) (xs ys : List A) → n ≤ length xs → take n (xs ++ ys) ≡ take n xs
  take-append_left zero xs ys h = refl
  take-append_left (suc n) [] ys h = absurd (omega arith)
  take-append_left (suc n) (x ∷ xs) ys h = ap (◌∷◌ x) (take-append_left n xs ys (omega arith))

  -- Writing at the fill level of an array extends its filled part by one element.
  pub take-set :
      (n : ℕ) (xs : List A) (v : A)
      → n < length xs
      → take (suc n) (set xs n v) ≡ take n xs ++ (v ∷ [])
  take-set zero [] v h = absurd (omega arith)
  take-set zero (x ∷ xs) v h = refl
  take-set (suc n) [] v h = absurd (omega arith)
  take-set (suc n) (x ∷ xs) v h = ap (◌∷◌ x) (take-set n xs v (omega arith))

  pub All-take {κ} : (P : A → Type κ) (n : ℕ) (xs : List A) → All P xs → All P (take n xs)
  All-take P zero xs h = tt
  All-take P (suc n) [] h = tt
  All-take P (suc n) (x ∷ xs) h = (h.0, All-take P n xs h.1)

  pub All-append {κ} : (P : A → Type κ) (xs ys : List A) → All P xs → All P ys → All P (xs ++ ys)
  All-append P [] ys hx hy = hy
  All-append P (x ∷ xs) ys hx hy = (hx.0, All-append P xs ys hx.1 hy)

  pub All-map {κ μ} :
      {P : A → Type κ} {Q : A → Type μ} (f : (a : A) → P a → Q a) (xs : List A)
      → All P xs
      → All Q xs
  All-map f [] h = tt
  All-map f (x ∷ xs) h = (f x h.0, All-map f xs h.1)

  pub All-zip {κ μ ν} :
      {P : A → Type κ} {Q : A → Type μ} {R : A → Type ν} (f : (a : A) → P a → Q a → R a)
      (xs : List A)
      → All P xs
      → All Q xs
      → All R xs
  All-zip f [] p q = tt
  All-zip f (x ∷ xs) p q = (f x p.0 q.0, All-zip f xs p.1 q.1)

  pub All-split {κ} : (P : A → Type κ) (xs ys : List A) → All P (xs ++ ys) → All P xs × All P ys
  All-split P [] ys h = (tt, h)
  All-split P (x ∷ xs) ys h = let (l, r) = All-split P xs ys h.1 in ((h.0, l), r)

  pub take-length-take : (n : ℕ) (xs : List A) → take (length (take n xs)) xs ≡ take n xs
  take-length-take zero xs = refl
  take-length-take (suc n) [] = refl
  take-length-take (suc n) (x ∷ xs) = ap (◌∷◌ x) (take-length-take n xs)

  pub get_or-set_self :
      (xs : List A) (i : ℕ) (v d : A) → i < length xs → get_or (set xs i v) i d ≡ v
  get_or-set_self [] i v d h = absurd (omega arith)
  get_or-set_self (x ∷ xs) zero v d h = refl
  get_or-set_self (x ∷ xs) (suc i) v d h = get_or-set_self xs i v d (omega arith)

  pub take-replicate : (n m : ℕ) (a : A) → n ≤ m → take n (replicate m a) ≡ replicate n a
  take-replicate zero m a h = refl
  take-replicate (suc n) zero a h = absurd (omega arith)
  take-replicate (suc n) (suc m) a h = ap (◌∷◌ a) (take-replicate n m a (omega arith))
