-- ===== src/Xtask/Wait/Returns.antt =====
-- The waits of the xtask come to an end, and what they have seen then.
use aetheros_rust_project.Prelude.{
  ℕ, zero, suc, ◌+◌, ◌-◌, ◌*◌, ◌≤◌, ◌<◌, ◌≡◌, refl, ◌∙◌, ◌≢◌, true, false, Option, none, some,
  arith, leb, Option-cases, inl, inr, ◌⊎◌,
}
use aetheros_rust_project.Prelude.Text.{Text}
use aetheros_rust_project.Xtask.{Result, err, ok}
use aetheros_rust_project.Xtask.Wait.{
  Host, contains_marker, loop, marker_round, boot_round, connect_round, wait_for_log_marker,
  wait_for_boot, connect_monitor,
}

pub Result-cases : {T : Type 0} (r : Result T) → ((e : Text) × (r ≡ err e)) ⊎ ((t : T) × (r ≡ ok t))
Result-cases (err e) = inl (e, refl)
Result-cases (ok t) = inr (t, refl)

pub some-inj : {T : Type 0} {a b : T} → ◌≡◌ {A = Option T} (some a) (some b) → a ≡ b
some-inj e = cc

module _ {W : Type 0} (host : Host W) (show_nat : ℕ → Text) where
  -- `n` sleeps.
  abbrev pub slept : ℕ → W → W
  slept zero w = w
  slept (suc n) w = slept n (host.sleep w)

  -- The first round, after `n` sleeps, that gives a result, with that result.
  pub record IsFirst {R : Type 0} (round : W → Option R) (w : W) (n : ℕ) (r : R) : Type 0 where
    pub decided : round (slept n w) ≡ some r
    pub before : (k : ℕ) → k < n → round (slept k w) ≡ none

  one_more :
      {R : Type 0} (round : W → Option R) (w : W) (k : ℕ)
      → round w ≡ none
      → ((j : ℕ) → j < k → round (slept j (host.sleep w)) ≡ none)
      → (j : ℕ) → j < suc k
      → round (slept j w) ≡ none
  one_more round w k now rest zero lt = now
  one_more round w k now rest (suc j) lt = rest j (omega arith)

  loop-now :
      {R : Type 0} (n : ℕ) (round : W → Option R) (w : W) {r : R}
      → round w ≡ some r
      → loop host show_nat (suc n) round w ≡ some r
  unfolding loop
  loop-now n round w now = rw (now, loop) refl

  loop-later :
      {R : Type 0} (n : ℕ) (round : W → Option R) (w : W)
      → round w ≡ none
      → loop host show_nat (suc n) round w ≡ loop host show_nat n round (host.sleep w)
  unfolding loop
  loop-later n round w not_yet = rw (not_yet, loop) refl

  at_once :
      {R : Type 0} (n : ℕ) (round : W → Option R) (w : W) {r : R}
      → round w ≡ some r
      → (r : R) × (k : ℕ) × (loop host show_nat (suc n) round w ≡ some r) × IsFirst round w k r
  at_once n round w {r} now = (
    r,
    0,
    loop-now n round w now,
    record { decided = now; before = λ k lt. absurd (omega arith) },
  )

  pub IsFirst-loop :
      {R : Type 0} (n : ℕ) (round : W → Option R) (w : W) (end : ℕ)
      → ((v : W) → host.now v + 200 ≤ host.now (host.sleep v))
      → ((v : W) → end ≤ host.now v → round v ≢ none)
      → end ≤ host.now w + 200 * n
      → (r : R) × (k : ℕ) × (loop host show_nat (suc n) round w ≡ some r) × IsFirst round w k r
  IsFirst-loop zero round w end steps stops enough = elim (Option-cases (round w)) [
    | inr (r, now) ↦ at_once 0 round w now
    | inl not_yet ↦ absurd (stops w (omega arith) not_yet)
  ]
  IsFirst-loop (suc n) round w end steps stops enough = elim (Option-cases (round w)) [
    | inr (r, now) ↦ at_once (suc n) round w now
    | inl not_yet ↦
        let (r, k, found, first) =
          IsFirst-loop n round (host.sleep w) end steps stops (omega (arith, steps w)) in
        (
          r,
          suc k,
          loop-later (suc n) round w not_yet ∙ found,
          record { decided = first.decided; before = one_more round w k not_yet first.before },
        )
  ]

  -- Past the timeout, a round gives a result.
  pub marker_round-stops :
      (marker : Text) (timeout started : ℕ) (w : W)
      → started + timeout * 1000 ≤ host.now w
      → marker_round host show_nat marker timeout started w ≢ none
  unfolding marker_round
  marker_round-stops marker timeout started w late e =
      elim (Result-cases (contains_marker host show_nat marker w)) [
        | inl (m, unreadable) ↦ let q = rw (unreadable, marker_round) at e in cc
        | inr (true, found) ↦ let q = rw (found, marker_round) at e in cc
        | inr (false, missing) ↦ elim (Result-cases (host.try_wait w)) [
          | inl (m, failed) ↦ let q = rw (missing, failed, marker_round) at e in cc
          | inr (some status, ended) ↦ let q = rw (missing, ended, marker_round) at e in cc
          | inr (none, runs) ↦
              let up : leb (timeout * 1000) (host.now w - started) ≡ true = ground arith in
              let q = rw (missing, runs, marker_round, up) at e in cc
        ]
      ]

  pub boot_round-stops :
      (marker : Text) (timeout started : ℕ) (w : W)
      → started + timeout * 1000 ≤ host.now w
      → boot_round host show_nat marker timeout started w ≢ none
  unfolding boot_round
  boot_round-stops marker timeout started w late e =
      elim (Result-cases (contains_marker host show_nat marker w)) [
        | inl (m, unreadable) ↦ let q = rw (unreadable, boot_round) at e in cc
        | inr (true, found) ↦ let q = rw (found, boot_round) at e in cc
        | inr (false, missing) ↦ elim (Result-cases (host.try_wait w)) [
          | inl (m, failed) ↦ let q = rw (missing, failed, boot_round) at e in cc
          | inr (some status, ended) ↦ let q = rw (missing, ended, boot_round) at e in cc
          | inr (none, runs) ↦
              let up : leb (timeout * 1000) (host.now w - started) ≡ true = ground arith in
              let q = rw (missing, runs, boot_round, up) at e in cc
        ]
      ]

  pub connect_round-stops :
      (connect : W → Result W) (port timeout started : ℕ) (w : W)
      → started + timeout * 1000 ≤ host.now w
      → connect_round host show_nat connect port timeout started w ≢ none
  unfolding connect_round
  connect_round-stops connect port timeout started w late e = elim (Result-cases (connect w)) [
    | inr (s, connected) ↦ let q = rw (connected, connect_round) at e in cc
    | inl (m, refused) ↦
        let up : leb (timeout * 1000) (host.now w - started) ≡ true = ground arith in
        let q = rw (refused, connect_round, up) at e in cc
  ]

  -- The three waits return within five rounds for each second of their timeout, and one more, if every sleep lets
  -- 200 ms pass at least: each with what its first round that gives anything gives.
  pub waits_return :
      (marker : Text) (connect : W → Result W) (port timeout : ℕ) (w : W)
      → ((v : W) → host.now v + 200 ≤ host.now (host.sleep v))
      → ((r : Result W) × (k : ℕ) × (wait_for_log_marker host show_nat
              (suc (timeout * 5))
              marker
              timeout
              w
            ≡ some r)
          × IsFirst (marker_round host show_nat marker timeout (host.now w)) w k r)
        × ((r : Result W) × (k : ℕ) × (wait_for_boot host show_nat
                (suc (timeout * 5))
                marker
                timeout
                w
              ≡ some r)
            × IsFirst (boot_round host show_nat marker timeout (host.now w)) w k r)
        × ((r : Result W) × (k : ℕ) × (connect_monitor host show_nat
                (suc (timeout * 5))
                connect
                port
                timeout
                w
              ≡ some r)
            × IsFirst (connect_round host show_nat connect port timeout (host.now w)) w k r)
  unfolding wait_for_log_marker wait_for_boot connect_monitor
  waits_return marker connect port timeout w steps =
      let end = host.now w + timeout * 1000 in
      (
        IsFirst-loop (timeout * 5) (marker_round host show_nat marker timeout (host.now w)) w end
            steps (marker_round-stops marker timeout (host.now w)) (omega arith),
        IsFirst-loop (timeout * 5) (boot_round host show_nat marker timeout (host.now w)) w end
            steps (boot_round-stops marker timeout (host.now w)) (omega arith),
        IsFirst-loop (timeout * 5) (connect_round host show_nat connect port timeout (host.now w)) w
            end steps (connect_round-stops connect port timeout (host.now w)) (omega arith),
      )
