-- ===== src/Xtask/Check/Shell.antt =====
-- How the shell check of the xtask comes out.

use aetheros_rust_project.Prelude.{ℕ, suc, ◌+◌, ◌*◌, ◌≤◌, ◌≡◌, refl, some}
use aetheros_rust_project.Prelude.Text.{Text, codes}
use aetheros_rust_project.Xtask.{Result, err, ok, ◌>>=◌, >>=-ok, map_err-ok}
use aetheros_rust_project.Xtask.Wait.Ends.{marker_returns, connect_returns}
use aetheros_rust_project.Xtask.Stage.Tree.{stage_boot_tree}
use aetheros_rust_project.Xtask.Stage.Qemu.{qemu_monitor_port}
use aetheros_rust_project.Xtask.Stage.Staged.{Copies, stage_boot_tree-IsStaged}
use aetheros_rust_project.Xtask.Check.{
  Host, ◌>>>◌, serial_log, screenshot, marker, timeout, remove_if_exists, clear_both, qemu_for,
  with_monitor, spawned, start_shell, verify_qemu_shell,
}
use aetheros_rust_project.Xtask.Check.Passed.{
  Returns, >>>-Returns, Removes, polling, Answered, ShellPassed, ShellOutcome,
  remove_if_exists-gone,
}
use aetheros_rust_project.Xtask.Check.Answered.{
  to_boot, to_shell, to_monitor, to_send, to_help, to_info, to_list, to_end,
  verify_qemu_shell-Answered,
}

module _ {W P : Type 0} (host : Host W P) (show_nat show_char : ℕ → Text) where
  start_shell-ok :
      (root : P) (w launched w' : W)
      → Copies host.files
      → Removes host show_nat show_char
      → start_shell host show_nat show_char w root ≡ ok launched
      → Answered host show_nat show_char root launched w'
      → ShellPassed host show_nat show_char root w w'
  unfolding start_shell
  start_shell-ok root w launched w' copies removes e answered =
      let log = serial_log host show_nat show_char root in
      let shot = screenshot host show_nat show_char root in
      let stage = stage_boot_tree host.files w root in
      let clear = clear_both host show_nat show_char root in
      let prepare = qemu_for host show_nat show_char root in
      let monitor = with_monitor host show_nat show_char in
      let (monitored, e₃, last) =
        >>=-ok (stage >>= clear >>= prepare >>= monitor) (spawned host show_nat show_char) e in
      let (qemu, e₂, monitoring) = >>=-ok (stage >>= clear >>= prepare) monitor e₃ in
      let (cleared, e₁, preparing) = >>=-ok (stage >>= clear) prepare e₂ in
      let (staged, staging, clearing) = >>=-ok stage clear e₁ in
      let (half, first, second) =
        >>=-ok (remove_if_exists host show_nat show_char log staged)
          (remove_if_exists host show_nat show_char shot) clearing in
      let gone = remove_if_exists-gone host show_nat show_char log staged half removes first in
      let both = remove_if_exists-gone host show_nat show_char shot half cleared removes second in
      record {
        staged = staged;
        staging = staging;
        tree = (stage_boot_tree-IsStaged host.files w staged root copies staging).0;
        cleared = cleared;
        clearing = clearing;
        no_log = both.1 log gone.0;
        no_screenshot = both.0;
        qemu = qemu;
        preparing = preparing;
        monitored = monitored;
        monitoring = monitoring;
        launched = launched;
        launching = map_err-ok _ _ last;
        answered = answered;
      }

  shell-Outcome :
      (fuel : ℕ) (root : P) (w : W) (r : Result W)
      → Copies host.files
      → Removes host show_nat show_char
      → verify_qemu_shell host show_nat show_char fuel w root ≡ some r
      → ShellOutcome host show_nat show_char root w r
  shell-Outcome fuel root w (err e) copies removes found = tt
  shell-Outcome fuel root w (ok w') copies removes found =
      let (launched, started, answered) =
        verify_qemu_shell-Answered host show_nat show_char fuel root w w' found in
      start_shell-ok root w launched w' copies removes started answered

  verify_qemu_shell-Returns :
      (n : ℕ) (root : P) (w : W)
      → ((v : W) → host.now v + 200 ≤ host.now (host.sleep 200 v))
      → timeout host show_nat show_char * 5 ≤ n
      → 25 ≤ n
      → Returns (verify_qemu_shell host show_nat show_char (suc n) w root)
  unfolding verify_qemu_shell
  verify_qemu_shell-Returns n root w steps enough more =
      let poll = polling host show_nat show_char root in
      let waits = marker_returns poll show_nat steps n (timeout host show_nat show_char) enough in
      let port = qemu_monitor_port host.files host.parse_u16 in
      let connects = connect_returns poll show_nat steps n 5 more (host.connect port) port in
      let start = some (start_shell host show_nat show_char w root) in
      let s₃ =
        start
        >>> (to_boot host show_nat show_char (suc n) root)
        >>> (to_shell host show_nat show_char (suc n) root)
        >>> (to_monitor host show_nat show_char (suc n) root) in
      let s₆ =
        s₃
        >>> (to_send host show_nat show_char (suc n) root)
        >>> (to_help host show_nat show_char (suc n) root)
        >>> (to_info host show_nat show_char (suc n) root) in
      let r₁ =
        >>>-Returns start (to_boot host show_nat show_char (suc n) root) (_, refl)
          (waits (marker host show_nat show_char)) in
      let r₂ =
        >>>-Returns (start >>> (to_boot host show_nat show_char (suc n) root))
          (to_shell host show_nat show_char (suc n) root) r₁
          (waits (codes "AetherOS shell ready")) in
      let r₃ =
        >>>-Returns
          (start
            >>> (to_boot host show_nat show_char (suc n) root)
            >>> (to_shell host show_nat show_char (suc n) root))
          (to_monitor host show_nat show_char (suc n) root) r₂ connects in
      let r₄ =
        >>>-Returns s₃ (to_send host show_nat show_char (suc n) root) r₃ (λ monitor. (_, refl)) in
      let r₅ =
        >>>-Returns (s₃ >>> (to_send host show_nat show_char (suc n) root))
          (to_help host show_nat show_char (suc n) root) r₄
          (waits (codes "Show this command list")) in
      let r₆ =
        >>>-Returns
          (s₃
            >>> (to_send host show_nat show_char (suc n) root)
            >>> (to_help host show_nat show_char (suc n) root))
          (to_info host show_nat show_char (suc n) root) r₅
          (waits (codes "AetherOS academic kernel")) in
      let r₇ =
        >>>-Returns s₆ (to_list host show_nat show_char (suc n) root) r₆
          (waits (codes "/README.TXT")) in
      >>>-Returns (s₆ >>> (to_list host show_nat show_char (suc n) root))
        (to_end host show_nat show_char (suc n) root) r₇ (λ listed. (_, refl))

  -- `verify_qemu_shell` returns, if no wait gets fewer than 26 rounds, nor fewer than five for each second of the
  -- timeout and one more, and every sleep between them lets 200 ms pass at least. If it returns no error, the
  -- boot tree was staged with its four files; there was neither a log nor a screenshot when QEMU's command
  -- was made up; QEMU, spawned with it and with a monitor, showed the boot marker and then the
  -- shell's; the commands and the screen dump were sent to the monitor; the log showed what `help`, `info`
  -- and `ls` print; and the dump has 16 bytes at least, `P6` at its start, when QEMU was ended. This is so if
  -- copies make their destination, removed files are gone, and neither does more to what exists.
  pub verify_qemu_shell-Outcome :
      (n : ℕ) (root : P) (w : W)
      → Copies host.files
      → Removes host show_nat show_char
      → ((v : W) → host.now v + 200 ≤ host.now (host.sleep 200 v))
      → timeout host show_nat show_char * 5 ≤ n
      → 25 ≤ n
      → (r : Result W) × (verify_qemu_shell host show_nat show_char (suc n) w root ≡ some r)
        × ShellOutcome host show_nat show_char root w r
  verify_qemu_shell-Outcome n root w copies removes steps enough more =
      let (r, found) = verify_qemu_shell-Returns n root w steps enough more in
      (r, found, shell-Outcome (suc n) root w r copies removes found)
