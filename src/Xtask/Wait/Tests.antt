-- ===== src/Xtask/Wait/Tests.antt =====
-- The waits on a host whose state is its clock, in milliseconds.
use aetheros_rust_project.Prelude.{ℕ, ◌+◌, ◌≡◌, refl, [], ◌∷◌, none, some, ltb, if◌then◌else◌}
use aetheros_rust_project.Prelude.Text.{Text, codes}
use aetheros_rust_project.Xtask.{Result, err, ok}
use aetheros_rust_project.Xtask.Wait.{
  Host, loop, wait_for_log_marker, marker_round, contains_marker, contains, tail_lines, lines, join,
}

abbrev digit : ℕ → Text
digit n = n ∷ []

-- The log is there from 300 ms on, and QEMU keeps running.
abbrev host : Host ℕ
host = record {
  read_log = λ t. if ltb t 300 then none else some (ok (codes "up: shell ready\r\n"));
  try_wait = λ t. ok none;
  stderr = λ t. ok [];
  kill = λ t. ok t;
  wait = λ t. ok t;
  now = λ t. t;
  sleep = λ t. t + 200;
}

abbrev refused : ℕ → Result ℕ
refused t = err (codes "refused")

keeps_lines : tail_lines host digit 1 400 ≡ ok (codes "up: shell ready")
unfolding tail_lines lines join
keeps_lines = refl

finds : wait_for_log_marker host digit 6 (codes "ready") 1 0 ≡ some (ok 400)
unfolding wait_for_log_marker loop marker_round contains_marker contains
finds = refl
