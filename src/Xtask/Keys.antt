-- ===== src/Xtask/Keys.antt =====
-- How the xtask types a command: `qemu_sendkey_name`, `send_monitor_command` and
-- `send_shell_command`. `S` is the stream to the QEMU monitor, and `show_char` is `{:?}` of a `char`.
pub mod Documented
pub mod Typed
mod Tests
use aetheros_rust_project.Prelude.{
  ℕ, ◌+◌, Bool, ◌&&◌, ◌||◌, [], ◌∷◌, ◌++◌, leb, ◌==◌, if◌then◌else◌,
}
use aetheros_rust_project.Prelude.Text.{Text, codes}
use aetheros_rust_project.Xtask.{Result, err, ok, ◌>>=◌, map_err}

abbrev pub within : ℕ → ℕ → ℕ → Bool
within lo hi c = leb lo c && leb c hi

module _ (show_char : ℕ → Text) where
  unfoldable pub qemu_sendkey_name : ℕ → Result Text
  qemu_sendkey_name ch =
      if within b'a' b'z' ch || within b'0' b'9' ch
      then ok (ch ∷ [])
      else if within b'A' b'Z' ch
      then ok (codes "shift-" ++ (ch + 32) ∷ [])
      else if ch == b' '
      then ok (codes "spc")
      else if ch == b'-'
      then ok (codes "minus")
      else if ch == b'='
      then ok (codes "equal")
      else if ch == b'['
      then ok (codes "bracket_left")
      else if ch == b']'
      then ok (codes "bracket_right")
      else if ch == b';'
      then ok (codes "semicolon")
      else if ch == b'\''
      then ok (codes "apostrophe")
      else if ch == b','
      then ok (codes "comma")
      else if ch == b'.'
      then ok (codes "dot")
      else if ch == b'/'
      then ok (codes "slash")
      else if ch == b'\\'
      then ok (codes "backslash")
      else err (codes "unsupported shell-check key: " ++ show_char ch)

  module _ {S : Type 0} (write_all : S → Text → Result S) where
    unfoldable pub send_monitor_command : S → Text → Result S
    send_monitor_command stream command =
        map_err (λ e. codes "failed to send monitor command '" ++ command ++ codes "': " ++ e)
          (write_all stream command >>= λ s. write_all s (b'\n' ∷ []))

    -- `sleep` is `thread::sleep`, with its milliseconds.
    module _ (sleep : ℕ → S → S) where
      -- The loop over the characters.
      unfoldable pub send_keys : S → Text → Result S
      send_keys stream [] = ok stream
      send_keys stream (key ∷ keys) =
          (qemu_sendkey_name key >>= λ name. send_monitor_command stream (codes "sendkey " ++ name))
          >>= λ s. send_keys (sleep 40 s) keys

      unfoldable pub send_shell_command : S → Text → Result S
      send_shell_command stream command = send_keys stream command >>= λ s.
          send_monitor_command s (codes "sendkey ret") >>= λ s'. ok (sleep 200 s')
