-- ===== src/Xtask/Keys/Typed.antt =====
-- What the kernel's keyboard and shell make of the keys that the xtask types.
use mathlib.Core.Option
use aetheros_rust_project.Prelude.{
  ℕ, ◌+◌, ◌<◌, ◌≤◌, ◌≡◌, refl, sym, ap, ◌∙◌, Bool, true, false, List, [], ◌∷◌, ◌++◌, map,
  append_assoc, append-nil, Option, none, some, arith, length, All, length-append,
}
use aetheros_rust_project.Prelude.Text.{Text, codes}
use aetheros_rust_project.Drivers.Keyboard.{KeyEvent, char, decode_scancode}
use aetheros_rust_project.Kernel.{Interrupt, key}
use aetheros_rust_project.Shell.Lines.{edit}
use aetheros_rust_project.Kernel.Typing.{Typed, press, press_all, edit_if}
use aetheros_rust_project.Xtask.{Result, ok}
use aetheros_rust_project.Xtask.Keys.{send_monitor_command, send_keys, send_shell_command}
use aetheros_rust_project.Xtask.Keys.Documented.{
  documented, events, prepend, is_typable, typable-lt, types_typable,
}

abbrev edit_all : List KeyEvent → Text → Text
edit_all [] cs = cs
edit_all (event ∷ es) cs = edit_all es (edit event cs)

edit_all-prepend :
    (o : Option KeyEvent) (rest : List KeyEvent × Bool) (cs : Text)
    → ◌≡◌ {A = Typed}
        ((prepend o rest).1, edit_all (prepend o rest).0 cs)
        (rest.1, edit_all rest.0 (edit_if o cs))
edit_all-prepend none rest cs = refl
edit_all-prepend (some event) rest cs = refl

press_all-events :
    (shift : Bool) (bytes : List ℕ) (cs : Text)
    → press_all (map key bytes) (shift, cs)
      ≡ ((events shift bytes).1, edit_all (events shift bytes).0 cs)
press_all-events shift [] cs = refl
press_all-events shift (b ∷ bs) cs =
    let r = decode_scancode shift b in
    press_all-events r.1 bs (edit_if r.0 cs) ∙ sym (edit_all-prepend r.0 (events r.1 bs) cs)

press_all-append :
    (is js : List Interrupt) (t : Typed) → press_all (is ++ js) t ≡ press_all js (press_all is t)
press_all-append [] js t = refl
press_all-append (i ∷ is) js t = press_all-append is js (press i t)

map-append : (bs cs : List ℕ) → map key (bs ++ cs) ≡ map key bs ++ map key cs
map-append [] cs = refl
map-append (b ∷ bs) cs = ap (◌∷◌ (key b)) (map-append bs cs)

-- The bytes of a sequence of keys.
abbrev pub documented_all : List Text → Option (List ℕ)
documented_all [] = some []
documented_all (name ∷ names) = elim (documented name) [
  | none ↦ none
  | some bytes ↦ Option.map (λ rest. bytes ++ rest) (documented_all names)
]

documented_all-cons :
    (name : Text) (names : List Text) {bytes more : List ℕ}
    → documented name ≡ some bytes
    → documented_all names ≡ some more
    → documented_all (name ∷ names) ≡ some (bytes ++ more)
documented_all-cons name names {bytes} known knowns =
    ap
      (λ o. elim o as (λ o. Option (List ℕ)) [
        | none ↦ none
        | some b ↦ Option.map (λ rest. b ++ rest) (documented_all names)
      ])
      known
    ∙ ap (Option.map (λ rest. bytes ++ rest)) knowns

-- What the monitor reads for a sequence of keys.
abbrev pub monitor_lines : List Text → Text
monitor_lines [] = []
monitor_lines (name ∷ names) = codes "sendkey " ++ name ++ b'\n' ∷ monitor_lines names

monitor_lines-append :
    (ns ms : List Text) → monitor_lines (ns ++ ms) ≡ monitor_lines ns ++ monitor_lines ms
monitor_lines-append [] ms = refl
monitor_lines-append (n ∷ ns) ms =
    ap (λ t. codes "sendkey " ++ n ++ b'\n' ∷ t) (monitor_lines-append ns ms)
    ∙ sym (append_assoc (codes "sendkey " ++ n) (b'\n' ∷ monitor_lines ns) (monitor_lines ms))

edit_char : (ch : ℕ) (cs : Text) → ch < 128 → length cs < 128 → edit (char ch) cs ≡ cs ++ ch ∷ []
edit_char ch cs small room = ground arith

-- The names of keys type `command` behind the line `before`, and leave shift up.
abbrev pub Types : List Text → Text → Text → Type 0
Types names before command =
    (bytes : List ℕ) × (documented_all names ≡ some bytes)
    × ◌≡◌ {A = Typed} (press_all (map key bytes) (false, before)) (false, before ++ command)

module _ {S : Type 0} (show_char : ℕ → Text) (write_all : S → Text → Result S) (sleep : ℕ → S → S)
    (sent : S → Text)
    (writes : (s : S) (t : Text) → (s' : S) × (write_all s t ≡ ok s') × (sent s' ≡ sent s ++ t))
    (sleeps : (n : ℕ) (s : S) → sent (sleep n s) ≡ sent s) where
  send_monitor_command-sent :
      (s : S) (command : Text)
      → (s' : S) × (send_monitor_command show_char write_all s command ≡ ok s')
        × (sent s' ≡ sent s ++ command ++ b'\n' ∷ [])
  unfolding send_monitor_command
  send_monitor_command-sent s command =
      let (s₁, first, to) = writes s command in
      let (s₂, second, end) = writes s₁ (b'\n' ∷ []) in
      (s₂, rw (first, second) refl, end ∙ ap (λ t. t ++ b'\n' ∷ []) to)

  send_keys-sent :
      (s : S) (before command : Text)
      → All (λ ch. is_typable ch ≡ true) command
      → length before + length command ≤ 128
      → (s' : S) × (names : List Text) × (send_keys show_char write_all sleep s command ≡ ok s')
        × (sent s' ≡ sent s ++ monitor_lines names)
        × Types names before command
  unfolding send_keys
  send_keys-sent s before [] can fits = (
    s,
    [],
    refl,
    sym (append-nil (sent s)),
    ([], refl, ap (λ t. (false, t)) (sym (append-nil before))),
  )
  send_keys-sent s before (ch ∷ command) (can, cans) fits =
      let (name, bytes, named, known, event) = types_typable show_char ch can in
      let (s₁, first, to) = send_monitor_command-sent s (codes "sendkey " ++ name) in
      let small = typable-lt ch can in
      let room : length before < 128 = omega arith in
      let longer : length (before ++ ch ∷ []) + length command ≤ 128 =
        omega (arith, length-append before (ch ∷ [])) in
      let (s₂, names, rest, to_end, (more, knowns, typed)) =
        send_keys-sent (sleep 40 s₁) (before ++ ch ∷ []) command cans longer in
      let one : ◌≡◌ {A = Typed} (press_all (map key bytes) (false, before))
          (false, before ++ ch ∷ []) =
        press_all-events false bytes before
        ∙ rw event (ap (λ t. (false, t)) (edit_char ch before small room)) in
      (
        s₂,
        name ∷ names,
        rw (named, first) rest,
        to_end
            ∙ ap (λ t. t ++ monitor_lines names) (sleeps 40 s₁ ∙ to)
            ∙ append_assoc (sent s ++ (codes "sendkey " ++ name)) (b'\n' ∷ []) (monitor_lines names)
            ∙ append_assoc (sent s) (codes "sendkey " ++ name) (b'\n' ∷ monitor_lines names),
        (
          bytes ++ more,
          documented_all-cons name names known knowns,
          ap (λ is. press_all is (false, before)) (map-append bytes more)
              ∙ press_all-append (map key bytes) (map key more) (false, before)
              ∙ ap (press_all (map key more)) one
              ∙ typed
              ∙ ap (λ t. (false, t)) (append_assoc before (ch ∷ []) command),
        ),
      )

  -- If every write to the monitor succeeds and sleeping writes nothing, then any command of letters, digits and the typable signs that fits
  -- the kernel's line is sent without error: the monitor reads keys that type just that line at the kernel's
  -- keyboard, and then the return key.
  pub send_shell_command-Types :
      (s : S) (command : Text)
      → All (λ ch. is_typable ch ≡ true) command
      → length command ≤ 128
      → (s' : S) × (names : List Text) × (send_shell_command show_char write_all sleep s command
          ≡ ok s')
        × (sent s' ≡ sent s ++ monitor_lines (names ++ codes "ret" ∷ []))
        × Types names [] command
  unfolding send_shell_command
  send_shell_command-Types s command can fits =
      let (s₁, names, first, to, types) = send_keys-sent s [] command can (omega arith) in
      let (s₂, last, end) = send_monitor_command-sent s₁ (codes "sendkey ret") in
      (
        sleep 200 s₂,
        names,
        rw (first, last) refl,
        sleeps 200 s₂
            ∙ end
            ∙ ap (λ t. t ++ codes "sendkey ret" ++ b'\n' ∷ []) to
            ∙ append_assoc (sent s ++ monitor_lines names) (codes "sendkey ret") (b'\n' ∷ [])
            ∙ append_assoc (sent s) (monitor_lines names) (codes "sendkey ret" ++ b'\n' ∷ [])
            ∙ ap (◌++◌ (sent s)) (sym (monitor_lines-append names (codes "ret" ∷ []))),
        types,
      )
