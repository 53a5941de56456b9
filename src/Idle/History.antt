-- ===== src/Idle/History.antt =====
-- When the detector offers the machine: its histories, newest event first.
use neuralmesh.Common.{
  true, ◌∷◌, ◌*◌, ◌⊎◌, [], ◌≡◌, ◌-◌, ℕ, ◌≤◌, some, List, inr, arith, false, Option, none, Bool,
  refl, inl, Bool-cases, sym, ap,
}
use neuralmesh.Float.{Float}
use neuralmesh.Idle.{
  available, cooling_down, user_idle, Reading, new_detector, set_leased, resume, poll,
  release_lease, pause, IdleDetector, paused, leased, keep_cooling, IdleState, busy, resumed,
  has_cooled, poll_state,
}

pub data Occurrence (R : Float) : Type 0 where
  polls : Reading R → Occurrence R
  leases releases pauses resumes : Occurrence R

resumed_cooling : (s : IdleState) → resumed s ≡ cooling_down → s ≡ cooling_down
resumed_cooling s e = ground arith

resumed_available : (s : IdleState) → resumed s ≡ available → s ≡ available
resumed_available s e = ground arith

module _ {R : Float} where
  unfoldable pub step : Occurrence R → IdleDetector R → IdleDetector R
  unfolding poll set_leased release_lease pause resume
  step (polls r) d = (poll r d).0
  step leases d = set_leased d
  step releases d = release_lease d
  step pauses d = pause d
  step resumes d = resume d

  unfoldable pub run : R.F → ℕ → List (Occurrence R) → IdleDetector R
  unfolding step
  run threshold minutes [] = new_detector threshold minutes
  run threshold minutes (e ∷ earlier) = step e (run threshold minutes earlier)

  module _ (threshold : R.F) where
    -- At time t a poll was idle, and every poll since then was; no lease, release or pause came since.
    pub IdleSince : List (Occurrence R) → ℕ → Type 0
    IdleSince [] t = ⊥
    IdleSince (polls r ∷ earlier) t =
        (user_idle threshold r ≡ true) × ((r.now ≡ t) ⊎ IdleSince earlier t)
    IdleSince (resumes ∷ earlier) t = IdleSince earlier t
    IdleSince (leases ∷ earlier) t = ⊥
    IdleSince (releases ∷ earlier) t = ⊥
    IdleSince (pauses ∷ earlier) t = ⊥

    -- Such a series of idle polls has reached a length.
    pub IdleFor : ℕ → List (Occurrence R) → Type 0
    unfolding IdleSince
    IdleFor secs [] = ⊥
    IdleFor secs (polls r ∷ earlier) =
        (user_idle threshold r ≡ true)
        × (((t : ℕ) × IdleSince earlier t × (secs ≤ r.now - t)) ⊎ IdleFor secs earlier)
    IdleFor secs (resumes ∷ earlier) = IdleFor secs earlier
    IdleFor secs (leases ∷ earlier) = ⊥
    IdleFor secs (releases ∷ earlier) = ⊥
    IdleFor secs (pauses ∷ earlier) = ⊥

    -- What the history says of a detector in each state.
    abbrev Explains : List (Occurrence R) → ℕ → IdleDetector R → Type 0
    Explains history minutes d =
        (d.threshold_pct ≡ threshold)
        × (d.cool_down ≡ minutes * 60)
        × (d.state ≡ cooling_down → (t : ℕ) × (d.cool_down_since ≡ some t) × IdleSince history t)
        × (d.state ≡ available → IdleFor (minutes * 60) history)

    cooling-Explains :
        (r : Reading R) (earlier : List (Occurrence R)) (minutes : ℕ) (d : IdleDetector R)
        (o : Option ℕ)
        → d.cool_down_since ≡ o
        → d.state ≡ cooling_down
        → user_idle threshold r ≡ true
        → Explains earlier minutes d
        → Explains (polls r ∷ earlier) minutes (keep_cooling o r.now d)
    unfolding IdleSince IdleFor
    cooling-Explains r earlier minutes d none at st idle (thr, cd, cooling, offered) =
        let (t, since, series) = cooling st in absurd (ground arith)
    cooling-Explains r earlier minutes d (some s) at st idle (thr, cd, cooling, offered) =
        let (t, since, series) = cooling st in
        elim (Bool-cases (has_cooled d.cool_down s r.now)) [
          | inl done ↦
              rw done
                (thr, cd, λ e. absurd (ground arith), λ e. (idle, inl (t, series, ground arith)))
          | inr more ↦
              rw more (thr, cd, λ e. (t, since, (idle, inr series)), λ e. absurd (ground arith))
        ]

    poll-Explains :
        (r : Reading R) (earlier : List (Occurrence R)) (minutes : ℕ) (d : IdleDetector R)
        (s : IdleState) (b : Bool)
        → d.state ≡ s
        → user_idle threshold r ≡ b
        → Explains earlier minutes d
        → Explains (polls r ∷ earlier) minutes (poll_state s b r.now d)
    unfolding IdleSince IdleFor
    poll-Explains r earlier minutes d busy true st idle (thr, cd, cooling, offered) =
        (thr, cd, λ e. (r.now, refl, (idle, inl refl)), λ e. absurd (ground arith))
    poll-Explains r earlier minutes d busy false st idle (thr, cd, cooling, offered) =
        (thr, cd, λ e. absurd (ground arith), λ e. absurd (ground arith))
    poll-Explains r earlier minutes d available true st idle (thr, cd, cooling, offered) =
        (thr, cd, λ e. absurd (ground arith), λ e. (idle, inr (offered st)))
    poll-Explains r earlier minutes d available false st idle (thr, cd, cooling, offered) =
        (thr, cd, λ e. absurd (ground arith), λ e. absurd (ground arith))
    poll-Explains r earlier minutes d cooling_down true st idle h =
        cooling-Explains r earlier minutes d d.cool_down_since refl st idle h
    poll-Explains r earlier minutes d cooling_down false st idle (thr, cd, cooling, offered) =
        (thr, cd, λ e. absurd (ground arith), λ e. absurd (ground arith))
    poll-Explains r earlier minutes d leased b st idle (thr, cd, cooling, offered) =
        (thr, cd, λ e. absurd (ground arith), λ e. absurd (ground arith))
    poll-Explains r earlier minutes d paused b st idle (thr, cd, cooling, offered) =
        (thr, cd, λ e. absurd (ground arith), λ e. absurd (ground arith))

    run-Explains :
        (minutes : ℕ) (history : List (Occurrence R))
        → Explains history minutes (run threshold minutes history)
    unfolding run step new_detector poll set_leased release_lease pause resume IdleSince IdleFor
    run-Explains minutes [] = (refl, refl, λ e. absurd (ground arith), λ e. absurd (ground arith))
    run-Explains minutes (polls r ∷ earlier) =
        let before = run-Explains minutes earlier in
        let d = run threshold minutes earlier in
        poll-Explains r earlier minutes d d.state (user_idle d.threshold_pct r) refl
          (ap (λ x. user_idle x r) (sym before.0)) before
    run-Explains minutes (leases ∷ earlier) =
        let (thr, cd, cooling, offered) = run-Explains minutes earlier in
        (thr, cd, λ e. absurd (ground arith), λ e. absurd (ground arith))
    run-Explains minutes (releases ∷ earlier) =
        let (thr, cd, cooling, offered) = run-Explains minutes earlier in
        (thr, cd, λ e. absurd (ground arith), λ e. absurd (ground arith))
    run-Explains minutes (pauses ∷ earlier) =
        let (thr, cd, cooling, offered) = run-Explains minutes earlier in
        (thr, cd, λ e. absurd (ground arith), λ e. absurd (ground arith))
    run-Explains minutes (resumes ∷ earlier) =
        let (thr, cd, cooling, offered) = run-Explains minutes earlier in
        let s = (run threshold minutes earlier).state in
        (thr, cd, λ e. cooling (resumed_cooling s e), λ e. offered (resumed_available s e))

  -- In every history of a detector, it is available only after a series of idle polls, broken by no lease,
  -- release or pause, of which two are at least the configured minutes apart, and every later poll
  -- was idle.
  pub run-IdleFor :
      (threshold : R.F) (minutes : ℕ) (history : List (Occurrence R))
      → (run threshold minutes history).state ≡ available
      → IdleFor threshold (minutes * 60) history
  run-IdleFor threshold minutes history = (run-Explains threshold minutes history).3
