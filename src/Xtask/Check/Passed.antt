-- ===== src/Xtask/Check/Passed.antt =====
-- When the checks of the xtask pass.

use aetheros_rust_project.Prelude.{
  ℕ, ◌≤◌, ◌<◌, ◌≡◌, ◌⊎◌, refl, inl, inr, true, false, Option, none, some, arith, length, ltb,
  Bool-cases,
}
use aetheros_rust_project.Prelude.Text.{Text, codes}
use aetheros_rust_project.Xtask.{Result, err, ok, map_err, >>=-ok, map_err-ok}
use aetheros_rust_project.Xtask.Wait
use aetheros_rust_project.Xtask.Wait.{starts_with, contains_marker, terminate_child}
use aetheros_rust_project.Xtask.Wait.Returns.{slept}
use aetheros_rust_project.Xtask.Stage.{Command}
use aetheros_rust_project.Xtask.Stage.Tree.{stage_boot_tree}
use aetheros_rust_project.Xtask.Stage.Qemu.{qemu_monitor_port}
use aetheros_rust_project.Xtask.Stage.Staged.{IsStaged}
use aetheros_rust_project.Xtask.Check.{
  start_boot, Host, ◌>>>◌, serial_log, screenshot, marker, waiting, remove_if_exists, clear_both,
  clear_log, validate_ppm_screenshot, qemu_for, with_monitor, send_all,
}

abbrev pub Returns : {T : Type 0} → Option (Result T) → Type 0
Returns {T} o = (r : Result T) × (o ≡ some r)

pub >>>-Returns :
    {T U : Type 0} (step : Option (Result T)) (next : T → Option (Result U))
    → Returns step
    → ((t : T) → Returns (next t))
    → Returns (step >>> next)
>>>-Returns none next (r, e) nexts = absurd cc
>>>-Returns (some (err e)) next r nexts = (err e, refl)
>>>-Returns (some (ok t)) next r nexts = nexts t

pub >>>-ok :
    {T U : Type 0} {u : U} (step : Option (Result T)) (next : T → Option (Result U))
    → (step >>> next) ≡ some (ok u)
    → (t : T) × (step ≡ some (ok t)) × (next t ≡ some (ok u))
>>>-ok none next h = absurd cc
>>>-ok (some (err e)) next h = absurd cc
>>>-ok (some (ok t)) next h = (t, refl, h)

pub some-ok : {T : Type 0} {r : Result T} {t : T} → some r ≡ some (ok t) → r ≡ ok t
some-ok e = cc

module _ {W P : Type 0} (host : Host W P) (show_nat show_char : ℕ → Text) where
  -- What removing a file does: it exists no more then, and nothing new does.
  abbrev pub Removes : Type 0
  Removes =
      (w w' : W) (path : P)
      → host.remove_file w path ≡ ok w'
      → (host.files.exists w' path ≡ false)
        × ((p : P) → host.files.exists w p ≡ false → host.files.exists w' p ≡ false)

  -- What is of the host in the waits, with the log in the tree at `root`.
  abbrev pub polling : P → Wait.Host W
  polling root = waiting host show_nat show_char (serial_log host show_nat show_char root)

  -- `w'` is `w` after some sleeps of the waits.
  abbrev pub Later : P → W → W → Type 0
  Later root w w' = (k : ℕ) × (w' ≡ slept (polling root) show_nat k w)

  -- The log has a text.
  abbrev pub Shows : P → Text → W → Type 0
  Shows root text w = contains_marker (polling root) show_nat text w ≡ ok true

  -- The boot tree is staged, and QEMU is started, when the log of an earlier run is gone.
  pub record BootPassed (root : P) (w w' : W) : Type 0 where
    pub staged : W
    pub staging : stage_boot_tree host.files w root ≡ ok staged
    pub tree : IsStaged host.files root staged
    pub cleared : W
    pub clearing : clear_log host show_nat show_char root staged ≡ ok cleared
    pub no_log : host.files.exists cleared (serial_log host show_nat show_char root) ≡ false
    pub qemu : Command P
    pub prepared : W
    pub preparing : qemu_for host show_nat show_char root cleared ≡ ok (qemu, prepared)
    pub launched : W
    pub launching : host.spawn prepared qemu ≡ ok launched
    pub booted : W
    pub boots : Later root launched booted
    pub boots_shown : Shows root (marker host show_nat show_char) booted
    pub ends : terminate_child (polling root) show_nat booted ≡ ok w'

  -- `launched` is QEMU just spawned, and `w'` the end: the markers are shown one after the other, with the
  -- commands typed between the second and the third, and the screen is dumped.
  pub record Answered (root : P) (launched w' : W) : Type 0 where
    pub booted : W
    pub boots : Later root launched booted
    pub boots_shown : Shows root (marker host show_nat show_char) booted
    pub ready : W
    pub readies : Later root booted ready
    pub ready_shown : Shows root (codes "AetherOS shell ready") ready
    pub monitor : W
    pub connects :
        (k : ℕ) × (host.connect
            (qemu_monitor_port host.files host.parse_u16)
            (slept (polling root) show_nat k ready)
          ≡ ok monitor)
    pub sent : W
    pub sends : send_all host show_nat show_char root monitor ≡ ok sent
    pub helped : W
    pub helps : Later root sent helped
    pub help_shown : Shows root (codes "Show this command list") helped
    pub informed : W
    pub informs : Later root helped informed
    pub info_shown : Shows root (codes "AetherOS academic kernel") informed
    pub listed : W
    pub lists : Later root informed listed
    pub listing_shown : Shows root (codes "/README.TXT") listed
    pub bytes : Text
    pub dump : host.files.read listed (screenshot host show_nat show_char root) ≡ ok bytes
    pub size : 16 ≤ length bytes
    pub format : starts_with bytes (codes "P6") ≡ true
    pub ends : terminate_child (polling root) show_nat listed ≡ ok w'

  -- The same, and the shell has answered what was typed at it.
  pub record ShellPassed (root : P) (w w' : W) : Type 0 where
    pub staged : W
    pub staging : stage_boot_tree host.files w root ≡ ok staged
    pub tree : IsStaged host.files root staged
    pub cleared : W
    pub clearing : clear_both host show_nat show_char root staged ≡ ok cleared
    pub no_log : host.files.exists cleared (serial_log host show_nat show_char root) ≡ false
    pub no_screenshot : host.files.exists cleared (screenshot host show_nat show_char root) ≡ false
    pub qemu : Command P × W
    pub preparing : qemu_for host show_nat show_char root cleared ≡ ok qemu
    pub monitored : Command P × W
    pub monitoring : with_monitor host show_nat show_char qemu ≡ ok monitored
    pub launched : W
    pub launching : host.spawn monitored.1 monitored.0 ≡ ok launched
    pub answered : Answered root launched w'

  -- QEMU could not be started; or the log did not show the marker in any round, but for the
  -- last if QEMU could not be ended then.
  abbrev pub BootFailed : P → W → Text → Type 0
  BootFailed root w e =
      (start_boot host show_nat show_char w root ≡ err e)
      ⊎ ((launched : W) × (start_boot host show_nat show_char w root ≡ ok launched)
          × (k : ℕ) × ((j : ℕ)
              → j < k
              → ¬ Shows root (marker host show_nat show_char)
                  (slept (polling root) show_nat j launched))
          × ((¬ Shows root (marker host show_nat show_char)
                (slept (polling root) show_nat k launched))
              ⊎ (terminate_child (polling root) show_nat (slept (polling root) show_nat k launched)
                  ≡ err e)))

  abbrev pub BootOutcome : P → W → Result W → Type 0
  BootOutcome root w (err e) = BootFailed root w e
  BootOutcome root w (ok w') = BootPassed root w w'

  -- What a result says: nothing more than its message, or that the check passed.
  abbrev pub ShellOutcome : P → W → Result W → Type 0
  ShellOutcome root w (err e) = Unit
  ShellOutcome root w (ok w') = ShellPassed root w w'

  pub remove_if_exists-gone :
      (path : P) (w w' : W)
      → Removes
      → remove_if_exists host show_nat show_char path w ≡ ok w'
      → (host.files.exists w' path ≡ false)
        × ((p : P) → host.files.exists w p ≡ false → host.files.exists w' p ≡ false)
  unfolding remove_if_exists
  remove_if_exists-gone path w w' removes e = elim (Bool-cases (host.files.exists w path)) [
    | inl there ↦ removes w w' path (map_err-ok _ _ (rw (there, remove_if_exists) at e))
    | inr gone ↦
        let q = rw (gone, remove_if_exists) at e in
        let same : w ≡ w' = cc in (rw (← same) gone, λ p absent. rw (← same) absent)
  ]

  pub clear_log-gone :
      (root : P) (w w' : W)
      → Removes
      → clear_log host show_nat show_char root w ≡ ok w'
      → host.files.exists w' (serial_log host show_nat show_char root) ≡ false
  unfolding clear_log
  clear_log-gone root w w' removes e =
      elim (Bool-cases (host.files.exists w (serial_log host show_nat show_char root))) [
        | inl there ↦
            (removes w w' (serial_log host show_nat show_char root)
              (map_err-ok _ _ (rw (there, clear_log) at e))).0
        | inr gone ↦ let q = rw (gone, clear_log) at e in let same : w ≡ w' = cc in rw (← same) gone
      ]

  pub validate_ppm_screenshot-ok :
      (path : P) (w : W)
      → validate_ppm_screenshot host show_nat show_char path w ≡ ok tt
      → (bytes : Text) × (host.files.read w path ≡ ok bytes)
        × (16 ≤ length bytes)
        × (starts_with bytes (codes "P6") ≡ true)
  unfolding validate_ppm_screenshot
  validate_ppm_screenshot-ok path w e = elim (Bool-cases (host.files.exists w path)) [
    | inr gone ↦ let q = rw (gone, validate_ppm_screenshot) at e in absurd cc
    | inl there ↦
        let (bytes, found, rest) =
          >>=-ok (map_err _ (host.files.read w path)) _
            (rw (there, validate_ppm_screenshot) at e) in
        elim (Bool-cases (ltb (length bytes) 16)) [
          | inl small ↦ let q = rw small at rest in absurd cc
          | inr enough ↦ elim (Bool-cases (starts_with bytes (codes "P6"))) [
            | inl ppm ↦ (bytes, map_err-ok _ _ found, ground arith, ppm)
            | inr other ↦ let q = rw (enough, other) at rest in absurd cc
          ]
        ]
  ]
