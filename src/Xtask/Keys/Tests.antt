-- ===== src/Xtask/Keys/Tests.antt =====
-- A typed command, on a monitor that keeps what is written to it.
use aetheros_rust_project.Prelude.{ℕ, ◌≡◌, refl, List, [], ◌∷◌, ◌++◌, arith}
use aetheros_rust_project.Prelude.Text.{Text, codes}
use aetheros_rust_project.Xtask.{Result, err, ok}
use aetheros_rust_project.Xtask.Keys.{
  qemu_sendkey_name, send_keys, send_monitor_command, send_shell_command,
}
use aetheros_rust_project.Xtask.Keys.Typed.{Types, monitor_lines, send_shell_command-Types}

abbrev digit : ℕ → Text
digit n = n ∷ []

abbrev keep : Text → Text → Result Text
keep s t = ok (s ++ t)

abbrev rest : ℕ → Text → Text
rest n s = s

stops_at_bar :
    send_shell_command digit keep rest [] (codes "a|")
    ≡ err (codes "unsupported shell-check key: |")
unfolding send_shell_command send_keys send_monitor_command qemu_sendkey_name
stops_at_bar = refl

names_shift : qemu_sendkey_name digit b'Q' ≡ ok (codes "shift-q")
unfolding qemu_sendkey_name
names_shift = refl

send_shell_command-Types_example :
    (s : Text) × (names : List Text) × (send_shell_command digit keep rest [] (codes "cat A")
      ≡ ok s)
    × (s ≡ monitor_lines (names ++ codes "ret" ∷ []))
    × Types names [] (codes "cat A")
send_shell_command-Types_example =
    send_shell_command-Types digit keep rest (λ s. s) (λ s t. (s ++ t, refl, refl)) (λ n s. refl) []
      (codes "cat A") (refl, (refl, (refl, (refl, (refl, tt))))) (omega arith)
