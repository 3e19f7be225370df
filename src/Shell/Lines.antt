-- ===== src/Shell/Lines.antt =====
-- The line editor of kernel/src/shell.rs against a line as a list of characters.
use aetheros_rust_project.Prelude.{
  ℕ, zero, suc, ◌+◌, ◌-◌, ◌%◌, ◌≤◌, ◌<◌, ◌≡◌, refl, ◌∙◌, sym, ap, true, false, not, [], ◌∷◌, ◌++◌,
  Option, arith, length, take, set, ltb, if◌then◌else◌, Bool-cases, inl, inr, length-set, take-set,
  length-take, Option-cases,
}
use aetheros_rust_project.Prelude.Text.{Text}
use aetheros_rust_project.Prelude.Str.{trim, from_utf8}
use aetheros_rust_project.Drivers.Keyboard.{KeyEvent, char, enter, backspace}
use aetheros_rust_project.Shell.{
  Shell, Kernel, max_line_len, on_key, on_event, execute_trimmed, execute_current_line,
}

pub record IsValid (s : Shell) : Type 0 where
  pub sized : length s.line_buffer ≡ max_line_len
  pub bounded : s.len ≤ max_line_len

-- What has been typed of the current line.
abbrev pub line : Shell → Text
line s = take s.len s.line_buffer

abbrev pub drop_last : Text → Text
drop_last [] = []
drop_last (c ∷ []) = []
drop_last (c ∷ d ∷ cs) = c ∷ drop_last (d ∷ cs)

-- A line editor on lists.
abbrev pub edit : KeyEvent → Text → Text
edit enter cs = []
edit backspace cs = drop_last cs
edit (char c) cs = if ltb (length cs) max_line_len then cs ++ c % 256 ∷ [] else []

take-drop_last : (n : ℕ) (cs : Text) → n < length cs → take n cs ≡ drop_last (take (suc n) cs)
take-drop_last n [] h = absurd (omega arith)
take-drop_last zero (x ∷ cs) h = refl
take-drop_last (suc n) (x ∷ []) h = absurd (omega arith)
take-drop_last (suc n) (x ∷ y ∷ cs) h = ap (◌∷◌ x) (take-drop_last n (y ∷ cs) (omega arith))

length-line : (s : Shell) → IsValid s → length (line s) ≡ s.len
length-line s v = omega (arith, length-take s.len s.line_buffer, v.sized, v.bounded)

module _ {V : Type 0} (show_nat : ℕ → Text) (show_name : Option Text → Text) where
  execute_trimmed-empty :
      (t : Text) (s : Shell) (k : Kernel V)
      → (execute_trimmed show_nat show_name t s k).0 ≡ record s { len = 0 }
  unfolding execute_trimmed
  execute_trimmed-empty [] s k = refl
  execute_trimmed-empty (b ∷ bs) s k = refl

  pub execute_current_line-empty :
      (s : Shell) (k : Kernel V)
      → (execute_current_line show_nat show_name s k).0 ≡ record s { len = 0 }
  unfolding execute_current_line
  execute_current_line-empty s k = elim (Option-cases (from_utf8 (take s.len s.line_buffer))) [
    | inl not_valid ↦ rw (not_valid, execute_current_line) refl
    | inr (text, valid) ↦ rw (valid, execute_current_line) (execute_trimmed-empty (trim text) s k)
  ]

  on_event-IsValid :
      (event : KeyEvent) (s : Shell) (k : Kernel V)
      → IsValid s
      → IsValid (on_event show_nat show_name event s k).0
  unfolding on_event
  on_event-IsValid enter s k v =
      rw (execute_current_line-empty s _) (record { sized = v.sized; bounded = omega arith })
  on_event-IsValid backspace s k v = elim (Bool-cases (ltb 0 s.len)) [
    | inl some_left ↦ rw some_left (record { sized = v.sized; bounded = omega (arith, v.bounded) })
    | inr empty ↦ rw empty v
  ]
  on_event-IsValid (char c) s k v = elim (Bool-cases (ltb s.len max_line_len)) [
    | inl room ↦ rw room (record {
      sized = length-set s.line_buffer s.len (c % 256) ∙ v.sized;
      bounded = ground arith;
    })
    | inr full ↦ rw full (record { sized = v.sized; bounded = omega arith })
  ]

  pub on_key-on_event :
      (event : KeyEvent) (s : Shell) (k : Kernel V)
      → s.initialized ≡ true
      → on_key show_nat show_name event s k ≡ on_event show_nat show_name event s k
  unfolding on_key
  on_key-on_event event s k ready =
      let on : not s.initialized ≡ false = ground (arith, ready) in rw on refl

  pub on_key-early :
      (event : KeyEvent) (s : Shell) (k : Kernel V)
      → s.initialized ≡ false
      → on_key show_nat show_name event s k ≡ (s, k)
  unfolding on_key
  on_key-early event s k early =
      let off : not s.initialized ≡ true = ground (arith, early) in rw off refl

  -- Every key event keeps the line of a valid shell within its buffer.
  pub on_key-IsValid :
      (event : KeyEvent) (s : Shell) (k : Kernel V)
      → IsValid s
      → IsValid (on_key show_nat show_name event s k).0
  on_key-IsValid event s k v = elim (Bool-cases s.initialized) [
    | inl ready ↦ rw (on_key-on_event event s k ready) (on_event-IsValid event s k v)
    | inr early ↦ rw (on_key-early event s k early) v
  ]

  line-on_event :
      (event : KeyEvent) (s : Shell) (k : Kernel V)
      → IsValid s
      → line (on_event show_nat show_name event s k).0 ≡ edit event (line s)
  unfolding on_event
  line-on_event enter s k v = rw (execute_current_line-empty s _) refl
  line-on_event backspace s k v = elim (Bool-cases (ltb 0 s.len)) [
    | inl some_left ↦
        let before : s.len ≡ suc (s.len - 1) = ground arith in
        let shorter =
          take-drop_last (s.len - 1) s.line_buffer (ground (arith, v.sized, v.bounded)) in
        rw some_left (shorter ∙ ap (λ n. drop_last (take n s.line_buffer)) (sym before))
    | inr empty ↦
        let none_left : s.len ≡ 0 = ground arith in
        let nothing : take s.len s.line_buffer ≡ [] = ap (λ n. take n s.line_buffer) none_left in
        rw empty (nothing ∙ sym (ap drop_last nothing))
  ]
  line-on_event (char c) s k v = rw (length-line s v) (elim (Bool-cases (ltb s.len max_line_len)) [
    | inl room ↦
        let next : s.len + 1 ≡ suc s.len = omega arith in
        rw room (
          ap (λ n. take n (set s.line_buffer s.len (c % 256))) next
          ∙ take-set s.len s.line_buffer (c % 256) (ground (arith, v.sized)))
    | inr full ↦ rw full refl
  ])

  -- On a valid shell that is initialized, a key event does to the line what it does to a list of
  -- characters.
  pub line-on_key :
      (event : KeyEvent) (s : Shell) (k : Kernel V)
      → IsValid s
      → s.initialized ≡ true
      → line (on_key show_nat show_name event s k).0 ≡ edit event (line s)
  line-on_key event s k v ready = rw (on_key-on_event event s k ready) (line-on_event event s k v)
