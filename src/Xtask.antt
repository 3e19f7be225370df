-- ===== src/Xtask.antt =====
-- tools/xtask/src/main.rs, the build and test runner. A `PathBuf` is a value of `P`, which the
-- standard library's operations on paths make; what the file system and QEMU do are parameters.
pub mod Keys
pub mod Wait
pub mod Stage
pub mod Check
use aetheros_rust_project.Prelude.{◌≡◌, refl}
use aetheros_rust_project.Prelude.Text.{Text}

-- `Result<T, String>`
pub data Result {ℓ} (T : Type ℓ) : Type ℓ where
  err : Text → Result T
  ok : T → Result T

-- What `?` does.
infixl 5 ◌>>=◌
abbrev pub ◌>>=◌ {ℓ ℓ'} : {T : Type ℓ} {U : Type ℓ'} → Result T → (T → Result U) → Result U
err e >>= next = err e
ok t >>= next = next t

-- `map_err`
abbrev pub map_err {ℓ} : {T : Type ℓ} → (Text → Text) → Result T → Result T
map_err f (err e) = err (f e)
map_err f (ok t) = ok t

-- A chain that succeeds has succeeded in both of its steps.
pub >>=-ok {ℓ ℓ'} :
    {T : Type ℓ} {U : Type ℓ'} {u : U} (step : Result T) (next : T → Result U)
    → (step >>= next) ≡ ok u
    → (t : T) × (step ≡ ok t) × (next t ≡ ok u)
>>=-ok (err e) next h = cc
>>=-ok (ok t) next h = (t, refl, h)

pub map_err-ok {ℓ} :
    {T : Type ℓ} {t : T} (f : Text → Text) (r : Result T) → map_err f r ≡ ok t → r ≡ ok t
map_err-ok f (err e) h = cc
map_err-ok f (ok t) h = h
