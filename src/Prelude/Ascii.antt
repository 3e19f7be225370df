-- ===== src/Prelude/Ascii.antt =====
-- Texts of ASCII characters through the operations on `str` that the program uses.
use mathlib.Core.List.{reverse, reverse-cons}
use Prim.Native.Nat.{ℕ, zero, suc, ◌<◌}
use native.Mathlib.Omega.{arith}
use mathlib.Core.Path.{◌≡◌, refl, subst, sym, ◌∙◌, ap}
use mathlib.Core.Logic.{inl, inr}
use mathlib.Core.Bool.{Bool, true, false}
use mathlib.Core.Option.{Option, none, some}
use mathlib.Core.List.{[], ◌∷◌}
use aetheros_rust_project.Prelude.Text.{Text}
use aetheros_rust_project.Prelude.Tests.{leb, ◌==◌, if◌then◌else◌, Bool-cases, Option-cases}
use aetheros_rust_project.Prelude.Lists.{length, All, All-append}
use aetheros_rust_project.Prelude.Str.{
  is_str, utf8_run, after_white, after_white_rev, strip, trim_start, trim_end, trim, strip_prefix,
  split_once, start, white1, white2, white3,
}

abbrev pub IsAscii : Text → Type 0
IsAscii bs = All (λ b. b < 128) bs

utf8_run-IsAscii : (bs : Text) → IsAscii bs → utf8_run start bs ≡ true
unfolding utf8_run
utf8_run-IsAscii [] h = refl
utf8_run-IsAscii (b ∷ bs) (hb, hs) =
    let small : leb b 0x7f ≡ true = ground arith in rw (small, utf8_run) (utf8_run-IsAscii bs hs)

-- An ASCII text is a `str`.
pub is_str-IsAscii : (bs : Text) → IsAscii bs → is_str bs ≡ true
unfolding is_str
is_str-IsAscii bs h = utf8_run-IsAscii bs h

-- What is left of a text keeps what holds of all its bytes.
abbrev Shrinks : (Text → Option Text) → Type 0
Shrinks f = (s r : Text) → f s ≡ some r → IsAscii s → IsAscii r

if_some :
    (test : Bool) (s r : Text) (o : Option Text)
    → (if test then some s else o) ≡ some r
    → IsAscii s
    → (o ≡ some r → IsAscii r)
    → IsAscii r
if_some true s r o e h rest = subst IsAscii (let q : s ≡ r = cc in q) h
if_some false s r o e h rest = rest e

after_white-Shrinks : Shrinks after_white
unfolding after_white
after_white-Shrinks [] r e h = absurd cc
after_white-Shrinks (a ∷ []) r e h = if_some (white1 a) [] r none e tt (λ q. absurd cc)
after_white-Shrinks (a ∷ b ∷ []) r e h =
    if_some (white1 a) (b ∷ []) r _ e h.1
      (λ q. if_some (white2 a b) [] r none q tt (λ q. absurd cc))
after_white-Shrinks (a ∷ b ∷ c ∷ s) r e h = if_some (white1 a) (b ∷ c ∷ s) r _ e h.1 (λ q.
    if_some (white2 a b) (c ∷ s) r _ q h.1.1
      (λ q. if_some (white3 a b c) s r none q h.1.1.1 (λ q. absurd cc)))

after_white_rev-Shrinks : Shrinks after_white_rev
unfolding after_white_rev
after_white_rev-Shrinks [] r e h = absurd cc
after_white_rev-Shrinks (a ∷ []) r e h = if_some (white1 a) [] r none e tt (λ q. absurd cc)
after_white_rev-Shrinks (a ∷ b ∷ []) r e h =
    if_some (white1 a) (b ∷ []) r _ e h.1
      (λ q. if_some (white2 b a) [] r none q tt (λ q. absurd cc))
after_white_rev-Shrinks (a ∷ b ∷ c ∷ s) r e h = if_some (white1 a) (b ∷ c ∷ s) r _ e h.1 (λ q.
    if_some (white2 b a) (c ∷ s) r _ q h.1.1
      (λ q. if_some (white3 c b a) s r none q h.1.1.1 (λ q. absurd cc)))

strip-IsAscii :
    (f : Text → Option Text) (n : ℕ) (s : Text) → Shrinks f → IsAscii s → IsAscii (strip f n s)
unfolding strip
strip-IsAscii f zero s shrinks h = h
strip-IsAscii f (suc n) s shrinks h = elim (Option-cases (f s)) [
  | inl none_left ↦ rw (none_left, strip) h
  | inr (r, left) ↦ rw (left, strip) (strip-IsAscii f n r shrinks (shrinks s r left h))
]

reverse-IsAscii : (bs : Text) → IsAscii bs → IsAscii (reverse bs)
reverse-IsAscii [] h = tt
reverse-IsAscii (b ∷ bs) h =
    subst IsAscii (sym (reverse-cons b bs))
      (All-append (λ b. b < 128) (reverse bs) (b ∷ []) (reverse-IsAscii bs h.1) (h.0, tt))

pub trim-IsAscii : (s : Text) → IsAscii s → IsAscii (trim s)
unfolding trim trim_start trim_end
trim-IsAscii s h =
    let t = trim_start s in
    let front = strip-IsAscii after_white (length s) s after_white-Shrinks h in
    reverse-IsAscii (strip after_white_rev (length t) (reverse t)) (
      strip-IsAscii after_white_rev (length t) (reverse t) after_white_rev-Shrinks
        (reverse-IsAscii t front))

pub strip_prefix-IsAscii : (p s r : Text) → strip_prefix p s ≡ some r → IsAscii s → IsAscii r
unfolding strip_prefix
strip_prefix-IsAscii [] s r e h = subst IsAscii (let q : s ≡ r = cc in q) h
strip_prefix-IsAscii (p ∷ ps) [] r e h = absurd cc
strip_prefix-IsAscii (p ∷ ps) (b ∷ bs) r e h = elim (Bool-cases (p == b)) [
  | inl same ↦ strip_prefix-IsAscii ps bs r (rw same at e) h.1
  | inr other ↦ absurd (let q = rw other at e in cc)
]

behind-eq :
    {x x' y y' : Text} → ◌≡◌ {A = Option (Text × Text)} (some (x, y)) (some (x', y')) → y ≡ y'
behind-eq e = cc

pub split_once-IsAscii :
    (c : ℕ) (s x r : Text) → split_once c s ≡ some (x, r) → IsAscii s → IsAscii r
unfolding split_once
split_once-IsAscii c [] x r e h = absurd cc
split_once-IsAscii c (b ∷ bs) x r e h = elim (Bool-cases (b == c)) [
  | inl found ↦
      let q : ◌≡◌ {A = Option (Text × Text)} (some ([], bs)) (some (x, r)) = rw found at e in
      subst IsAscii (behind-eq q) h.1
  | inr further ↦ elim (Option-cases (split_once c bs)) [
    | inl no_more ↦ absurd (let q = rw (further, no_more) at e in cc)
    | inr ((y, z), later) ↦
        let q : ◌≡◌ {A = Option (Text × Text)} (some (b ∷ y, z)) (some (x, r)) =
          rw (further, later) at e in
        split_once-IsAscii c bs y r (later ∙ ap (λ t. some (y, t)) (behind-eq q)) h.1
  ]
]
