-- ===== src/Idle/Tests.antt =====
-- The idle detector in a short history.
use neuralmesh.Common.{ℕ, false, refl, some, [], ◌∷◌, ◌≡◌, List}
use neuralmesh.Coordinator.Sample.{nmc, fixed_point}
use neuralmesh.Idle.{available, new_detector, release_lease, poll, set_leased}
use neuralmesh.Idle.History.{Occurrence, run-IdleFor, releases, step, run, polls, leases, IdleFor}

-- The GPU is at 1% at some time.
abbrev quiet : ℕ → Occurrence fixed_point
quiet now = polls (record { utilization_pct = some (nmc 1); force = false; now = now })

-- Newest first: idle from second 100 on, one minute of cool-down, with a lease before.
abbrev history : List (Occurrence fixed_point)
history = quiet 190 ∷ (quiet 160 ∷ (quiet 130 ∷ (quiet 100 ∷ (releases ∷ (leases ∷ [])))))

offered : (run (nmc 5) 1 history).state ≡ available
unfolding run step poll new_detector set_leased release_lease
offered = refl

run-IdleFor_example : IdleFor (nmc 5) 60 history
run-IdleFor_example = run-IdleFor (nmc 5) 1 history offered
