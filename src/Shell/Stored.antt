-- ===== src/Shell/Stored.antt =====
-- What kernel/src/shell.rs stores: the overlay of the file system behind a line of ASCII characters.

use aetheros_rust_project.Prelude.{
  ℕ, ◌%◌, ◌<◌, ◌≡◌, subst, sym, [], ◌∷◌, Option, some, arith, length, ltb, All-append, Bool-cases,
  Option-cases, inl, inr,
}
use aetheros_rust_project.Prelude.Text.{Text, codes}
use aetheros_rust_project.Prelude.Str.{from_utf8, trim, strip_prefix}
use aetheros_rust_project.Prelude.Ascii.{
  IsAscii, is_str-IsAscii, trim-IsAscii, strip_prefix-IsAscii, split_once-IsAscii,
}
use aetheros_rust_project.Fs.Vfs.{Overlay}
use aetheros_rust_project.Fs.Vfs.Valid as Valid
use aetheros_rust_project.Fs.Vfs.Laws.{write-IsValid, remove-IsValid}
use aetheros_rust_project.Drivers.Keyboard.{KeyEvent, char, enter, backspace}
use aetheros_rust_project.Shell.{
  Shell, Kernel, max_line_len, print, prompt, on_key, on_event, execute_command, execute_trimmed,
  execute_current_line, write_args,
}
use aetheros_rust_project.Shell.Lines as Lines
use aetheros_rust_project.Shell.Lines.{
  line, edit, drop_last, on_key-on_event, on_key-early, line-on_key,
}
use aetheros_rust_project.Shell.Commands.{execute_command-Confined}

write_args-IsAscii :
    (command path contents : Text)
    → write_args command ≡ some (path, contents)
    → IsAscii command
    → IsAscii contents
write_args-IsAscii command path contents e h =
    elim (Option-cases (strip_prefix (codes "write ") command)) [
      | inl other ↦ absurd (let q = rw (other, write_args) at e in cc)
      | inr (args, found) ↦
          split_once-IsAscii b' ' args path contents (rw (found, write_args) at e)
            (strip_prefix-IsAscii (codes "write ") command args found h)
    ]

-- A key of the keyboard.
abbrev pub IsTyped : KeyEvent → Type 0
IsTyped enter = Unit
IsTyped backspace = Unit
IsTyped (char c) = c < 128

drop_last-IsAscii : (cs : Text) → IsAscii cs → IsAscii (drop_last cs)
drop_last-IsAscii [] h = tt
drop_last-IsAscii (c ∷ []) h = tt
drop_last-IsAscii (c ∷ d ∷ cs) h = (h.0, drop_last-IsAscii (d ∷ cs) h.1)

pub edit-IsAscii :
    (event : KeyEvent) (cs : Text) → IsTyped event → IsAscii cs → IsAscii (edit event cs)
edit-IsAscii enter cs typed h = tt
edit-IsAscii backspace cs typed h = drop_last-IsAscii cs h
edit-IsAscii (char c) cs typed h = elim (Bool-cases (ltb (length cs) max_line_len)) [
  | inl room ↦ rw room (All-append (λ b. b < 128) cs (c % 256 ∷ []) h (omega arith, tt))
  | inr full ↦ rw full tt
]

module _ {V : Type 0} (show_nat : ℕ → Text) (show_name : Option Text → Text) where
  stores-execute_command :
      (command : Text) (k : Kernel V)
      → IsAscii command
      → Valid.IsValid k.overlay
      → Valid.IsValid (execute_command show_nat show_name command k).overlay
  stores-execute_command command k h v =
      let after = execute_command show_nat show_name command k in
      elim (execute_command-Confined show_nat show_name command k).overlay [
        | inl same ↦ subst (λ (o : Overlay). Valid.IsValid o) (sym same) v
        | inr (inl (path, contents, asked, written)) ↦
            write-IsValid k.overlay after.overlay path contents
              (is_str-IsAscii contents (write_args-IsAscii command path contents asked h)) v written
        | inr (inr (path, removed)) ↦ remove-IsValid k.overlay after.overlay path v removed
      ]

  stores-execute_trimmed :
      (t : Text) (s : Shell) (k : Kernel V)
      → IsAscii t
      → Valid.IsValid k.overlay
      → Valid.IsValid (execute_trimmed show_nat show_name t s k).1.overlay
  unfolding execute_trimmed
  stores-execute_trimmed [] s k h v = v
  stores-execute_trimmed (b ∷ bs) s k h v = stores-execute_command (b ∷ bs) k h v

  stores-execute_current_line :
      (s : Shell) (k : Kernel V)
      → IsAscii (line s)
      → Valid.IsValid k.overlay
      → Valid.IsValid (execute_current_line show_nat show_name s k).1.overlay
  unfolding execute_current_line
  stores-execute_current_line s k h v =
      let valid = is_str-IsAscii (line s) h in
      let whole : from_utf8 (line s) ≡ some (line s) = ground (arith, valid) in
      rw (whole, execute_current_line)
        (stores-execute_trimmed (trim (line s)) s k (trim-IsAscii (line s) h) v)

  stores-on_event :
      (event : KeyEvent) (s : Shell) (k : Kernel V)
      → IsAscii (line s)
      → Valid.IsValid k.overlay
      → Valid.IsValid (on_event show_nat show_name event s k).1.overlay
  unfolding on_event prompt
  stores-on_event enter s k h v =
      stores-execute_current_line s (print show_nat show_name (codes "\n") k) h v
  stores-on_event backspace s k h v = elim (Bool-cases (ltb 0 s.len)) [
    | inl some_left ↦ rw some_left v
    | inr empty ↦ rw empty v
  ]
  stores-on_event (char c) s k h v = elim (Bool-cases (ltb s.len max_line_len)) [
    | inl room ↦ rw room v
    | inr full ↦ rw full v
  ]

  -- On a valid shell with an ASCII line, a key keeps the overlay of the file system valid and the line
  -- ASCII.
  pub stores-on_key :
      (event : KeyEvent) (s : Shell) (k : Kernel V)
      → Lines.IsValid s
      → IsTyped event
      → IsAscii (line s)
      → Valid.IsValid k.overlay
      → IsAscii (line (on_key show_nat show_name event s k).0)
        × Valid.IsValid (on_key show_nat show_name event s k).1.overlay
  stores-on_key event s k sv typed h v = elim (Bool-cases s.initialized) [
    | inl ready ↦ (
      subst IsAscii (sym (line-on_key show_nat show_name event s k sv ready))
          (edit-IsAscii event (line s) typed h),
      rw (on_key-on_event show_nat show_name event s k ready) (stores-on_event event s k h v),
    )
    | inr early ↦ rw (on_key-early show_nat show_name event s k early) (h, v)
  ]
