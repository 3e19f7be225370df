-- ===== src/Xtask/Wait/Ends.antt =====
-- How the waits of the xtask end in success.
use aetheros_rust_project.Prelude.{
  ℕ, zero, suc, ◌+◌, ◌-◌, ◌*◌, ◌≤◌, ◌≡◌, ◌⊎◌, sym, ◌∙◌, ◌≢◌, true, false, [], Option, none, some,
  arith, leb, Bool-cases, Option-cases, inl, inr,
}
use aetheros_rust_project.Prelude.Text.{Text}
use aetheros_rust_project.Xtask.{Result, err, ok, ◌>>=◌}
use aetheros_rust_project.Xtask.Wait.{
  Host, contains_marker, loop, marker_round, boot_round, connect_round, wait_for_log_marker,
  wait_for_boot, connect_monitor, terminate_child, exited, tail_lines,
}
use aetheros_rust_project.Xtask.Wait.Returns.{
  Result-cases, some-inj, slept, IsFirst, IsFirst-loop, marker_round-stops, boot_round-stops,
  connect_round-stops,
}

module _ {W : Type 0} (host : Host W) (show_nat : ℕ → Text) where
  bind_fails :
      {T : Type 0} (r : Result T) (f : T → Result W) (w : W)
      → ((t : T) → f t ≢ ok w)
      → (r >>= f) ≢ ok w
  bind_fails (err e) f w fails e' = cc
  bind_fails (ok t) f w fails e = fails t e

  exited_fails :
      (before status behind : Text) (w w' : W) → exited host show_nat before status behind w ≢ ok w'
  unfolding exited
  exited_fails before status behind w w' =
      bind_fails (host.stderr w) _ w'
        (λ stderr. bind_fails (tail_lines host show_nat 20 w) _ w' (λ tail e. cc))

  late_fails :
      (message : Text → Text) (w w' : W)
      → (tail_lines host show_nat 20 w >>= λ tail.
          terminate_child host show_nat w >>= λ v. err (message tail))
        ≢ ok w'
  late_fails message w w' =
      bind_fails (tail_lines host show_nat 20 w) _ w'
        (λ tail. bind_fails (terminate_child host show_nat w) _ w' (λ v e. cc))

  marker_round-ok :
      (marker : Text) (timeout started : ℕ) (w w' : W)
      → marker_round host show_nat marker timeout started w ≡ some (ok w')
      → (w' ≡ w) × (contains_marker host show_nat marker w' ≡ ok true)
  unfolding marker_round
  marker_round-ok marker timeout started w w' e =
      elim (Result-cases (contains_marker host show_nat marker w)) [
        | inl (m, unreadable) ↦ let q = rw (unreadable, marker_round) at e in absurd cc
        | inr (true, found) ↦
            let q : some (ok w) ≡ some (ok w') = rw (found, marker_round) at e in
            let same : w ≡ w' = cc in (sym same, rw (← same) found)
        | inr (false, missing) ↦ elim (Result-cases (host.try_wait w)) [
          | inl (m, failed) ↦ let q = rw (missing, failed, marker_round) at e in absurd cc
          | inr (some status, ended) ↦
              let q = rw (missing, ended, marker_round) at e in
              absurd (exited_fails _ status [] w w' (some-inj q))
          | inr (none, runs) ↦ elim (Bool-cases (leb (timeout * 1000) (host.now w - started))) [
            | inl up ↦
                let q = rw (missing, runs, marker_round, up) at e in
                absurd (late_fails _ w w' (some-inj q))
            | inr time_left ↦ let q = rw (missing, runs, marker_round, time_left) at e in absurd cc
          ]
        ]
      ]

  pub boot_round-ok :
      (marker : Text) (timeout started : ℕ) (w w' : W)
      → boot_round host show_nat marker timeout started w ≡ some (ok w')
      → (contains_marker host show_nat marker w ≡ ok true)
        × (terminate_child host show_nat w ≡ ok w')
  unfolding boot_round
  boot_round-ok marker timeout started w w' e =
      elim (Result-cases (contains_marker host show_nat marker w)) [
        | inl (m, unreadable) ↦ let q = rw (unreadable, boot_round) at e in absurd cc
        | inr (true, found) ↦ (found, some-inj (rw (found, boot_round) at e))
        | inr (false, missing) ↦ elim (Result-cases (host.try_wait w)) [
          | inl (m, failed) ↦ let q = rw (missing, failed, boot_round) at e in absurd cc
          | inr (some status, ended) ↦
              let q = rw (missing, ended, boot_round) at e in
              absurd (exited_fails _ status _ w w' (some-inj q))
          | inr (none, runs) ↦ elim (Bool-cases (leb (timeout * 1000) (host.now w - started))) [
            | inl up ↦
                let q = rw (missing, runs, boot_round, up) at e in
                absurd (late_fails _ w w' (some-inj q))
            | inr time_left ↦ let q = rw (missing, runs, boot_round, time_left) at e in absurd cc
          ]
        ]
      ]

  -- A round that goes on has not seen the marker.
  pub boot_round-none :
      (marker : Text) (timeout started : ℕ) (w : W)
      → boot_round host show_nat marker timeout started w ≡ none
      → contains_marker host show_nat marker w ≢ ok true
  unfolding boot_round
  boot_round-none marker timeout started w e found = let q = rw (found, boot_round) at e in cc

  -- A round that fails has not seen the marker, or has not been able to end QEMU.
  pub boot_round-err :
      (marker : Text) (timeout started : ℕ) (w : W) (m : Text)
      → boot_round host show_nat marker timeout started w ≡ some (err m)
      → (contains_marker host show_nat marker w ≢ ok true)
        ⊎ (terminate_child host show_nat w ≡ err m)
  unfolding boot_round
  boot_round-err marker timeout started w m e =
      elim (Result-cases (contains_marker host show_nat marker w)) [
        | inl (m', unreadable) ↦ inl (λ found. let q = found in cc)
        | inr (true, found) ↦ inr (some-inj (rw (found, boot_round) at e))
        | inr (false, missing) ↦ inl (λ found. let q = found in cc)
      ]

  connect_round-ok :
      (connect : W → Result W) (port timeout started : ℕ) (w w' : W)
      → connect_round host show_nat connect port timeout started w ≡ some (ok w')
      → connect w ≡ ok w'
  unfolding connect_round
  connect_round-ok connect port timeout started w w' e = elim (Result-cases (connect w)) [
    | inr (s, got) ↦ got ∙ some-inj (rw (got, connect_round) at e)
    | inl (m, refused) ↦ elim (Bool-cases (leb (timeout * 1000) (host.now w - started))) [
      | inl up ↦ let q = rw (refused, connect_round, up) at e in absurd cc
      | inr time_left ↦ let q = rw (refused, connect_round, time_left) at e in absurd cc
    ]
  ]

  -- A loop gives what a round after some sleeps gives.
  loop-round :
      {R : Type 0} (fuel : ℕ) (round : W → Option R) (w : W) {r : R}
      → loop host show_nat fuel round w ≡ some r
      → (k : ℕ) × (round (slept host show_nat k w) ≡ some r)
  unfolding loop
  loop-round zero round w e = cc
  loop-round (suc fuel) round w {r} e = elim (Option-cases (round w)) [
    | inl not_yet ↦
        let q : loop host show_nat fuel round (host.sleep w) ≡ some r = rw (not_yet, loop) at e in
        let (k, found) = loop-round fuel round (host.sleep w) q in (suc k, found)
    | inr (r', now) ↦ let q : some r' ≡ some r = rw (now, loop) at e in (0, now ∙ q)
  ]

  -- A wait for a marker succeeds only after some sleeps alone, when the log has the marker.
  pub wait_for_log_marker-ok :
      (fuel : ℕ) (marker : Text) (timeout : ℕ) (w w' : W)
      → wait_for_log_marker host show_nat fuel marker timeout w ≡ some (ok w')
      → (k : ℕ) × (w' ≡ slept host show_nat k w)
        × (contains_marker host show_nat marker w' ≡ ok true)
  unfolding wait_for_log_marker
  wait_for_log_marker-ok fuel marker timeout w w' e =
      let (k, found) =
        loop-round fuel (marker_round host show_nat marker timeout (host.now w)) w e in
      let (same, has) =
        marker_round-ok marker timeout (host.now w) (slept host show_nat k w) w' found in
      (k, same, has)

  pub connect_monitor-ok :
      (fuel : ℕ) (connect : W → Result W) (port timeout : ℕ) (w w' : W)
      → connect_monitor host show_nat fuel connect port timeout w ≡ some (ok w')
      → (k : ℕ) × (connect (slept host show_nat k w) ≡ ok w')
  unfolding connect_monitor
  connect_monitor-ok fuel connect port timeout w w' e =
      let (k, found) =
        loop-round fuel (connect_round host show_nat connect port timeout (host.now w)) w e in
      (k, connect_round-ok connect port timeout (host.now w) (slept host show_nat k w) w' found)

  -- With more fuel than the rounds that fit the timeout, the waits return.
  module _ (steps : (v : W) → host.now v + 200 ≤ host.now (host.sleep v)) (n timeout : ℕ)
      (enough : timeout * 5 ≤ n) where
    pub marker_returns :
        (marker : Text) (w : W)
        → (r : Result W) × (wait_for_log_marker host show_nat (suc n) marker timeout w ≡ some r)
    unfolding wait_for_log_marker
    marker_returns marker w =
        let (r, k, found, first) =
          IsFirst-loop host show_nat n (marker_round host show_nat marker timeout (host.now w)) w
            (host.now w + timeout * 1000) steps
            (marker_round-stops host show_nat marker timeout (host.now w)) (omega arith) in
        (r, found)

    pub boot_returns :
        (marker : Text) (w : W)
        → (r : Result W) × (k : ℕ) × (wait_for_boot host show_nat (suc n) marker timeout w ≡ some r)
          × IsFirst host show_nat (boot_round host show_nat marker timeout (host.now w)) w k r
    unfolding wait_for_boot
    boot_returns marker w =
        let (r, k, found, first) =
          IsFirst-loop host show_nat n (boot_round host show_nat marker timeout (host.now w)) w
            (host.now w + timeout * 1000) steps
            (boot_round-stops host show_nat marker timeout (host.now w)) (omega arith) in
        (r, k, found, first)

    pub connect_returns :
        (connect : W → Result W) (port : ℕ) (w : W)
        → (r : Result W) × (connect_monitor host show_nat (suc n) connect port timeout w ≡ some r)
    unfolding connect_monitor
    connect_returns connect port w =
        let (r, k, found, first) =
          IsFirst-loop host show_nat n
            (connect_round host show_nat connect port timeout (host.now w)) w
            (host.now w + timeout * 1000) steps
            (connect_round-stops host show_nat connect port timeout (host.now w)) (omega arith) in
        (r, found)
