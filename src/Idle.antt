-- ===== src/Idle.antt =====
-- The idle detector of a provider, crates/nm-macos/src/idle.rs, with the times of `Instant` in whole
-- seconds. What a poll reads of the machine is its argument.
pub mod History
mod Tests
use neuralmesh.Common.{◌||◌, false, true, Option, none, Bool, ◌*◌, ℕ, some, ◌-◌, if◌then◌else◌, leb}
use neuralmesh.Float.{Float}

pub data IdleState : Type 0 where
  busy cooling_down available leased paused : IdleState

pub record IdleDetector (R : Float) : Type 0 where
  pub threshold_pct : R.F
  pub cool_down : ℕ
  pub state : IdleState
  pub cool_down_since : Option ℕ
  pub poll_interval : ℕ

-- The GPU's utilisation where it can be read, whether NM_FORCE_AVAILABLE is 1, and the time.
pub record Reading (R : Float) : Type 0 where
  pub utilization_pct : Option R.F
  pub force : Bool
  pub now : ℕ

abbrev pub resumed : IdleState → IdleState
resumed paused = busy
resumed s = s

-- `since.elapsed() >= self.cool_down`, where `elapsed` stops at 0
abbrev pub has_cooled : ℕ → ℕ → ℕ → Bool
has_cooled cool_down since now = leb cool_down (now - since)

unfoldable pub same_state : IdleState → IdleState → Bool
same_state busy busy = true
same_state cooling_down cooling_down = true
same_state available available = true
same_state leased leased = true
same_state paused paused = true
same_state _ _ = false

-- A GPU that cannot be read counts as idle.
abbrev pub is_gpu_idle : (R : Float) → R.F → Option R.F → Bool
is_gpu_idle R threshold_pct none = true
is_gpu_idle R threshold_pct (some pct) = R.lt pct threshold_pct

module _ {R : Float} where
  unfoldable pub new_detector : R.F → ℕ → IdleDetector R
  new_detector threshold_pct cool_down_minutes = record {
    threshold_pct = threshold_pct;
    cool_down = cool_down_minutes * 60;
    state = busy;
    cool_down_since = none;
    poll_interval = 30;
  }

  unfoldable pub set_leased : IdleDetector R → IdleDetector R
  set_leased d = record d { state = leased; cool_down_since = none }

  unfoldable pub release_lease : IdleDetector R → IdleDetector R
  release_lease d = record d { state = busy }

  unfoldable pub pause : IdleDetector R → IdleDetector R
  pause d = record d { state = paused }

  unfoldable pub resume : IdleDetector R → IdleDetector R
  resume d = record d { state = resumed d.state }

  -- `gpu_idle || force`; the lock of the screen is read for the log alone.
  abbrev pub user_idle : R.F → Reading R → Bool
  user_idle threshold_pct r = is_gpu_idle R threshold_pct r.utilization_pct || r.force

  abbrev pub go_busy : IdleDetector R → IdleDetector R
  go_busy d = record d { state = busy; cool_down_since = none }

  abbrev pub keep_cooling : Option ℕ → ℕ → IdleDetector R → IdleDetector R
  keep_cooling none now d = d
  keep_cooling (some since) now d =
      if has_cooled d.cool_down since now
      then record d { state = available; cool_down_since = none }
      else d

  -- The match on the state, with whether the user is idle.
  abbrev pub poll_state : IdleState → Bool → ℕ → IdleDetector R → IdleDetector R
  poll_state busy true now d = record d { state = cooling_down; cool_down_since = some now }
  poll_state busy false now d = go_busy d
  poll_state available true now d = d
  poll_state available false now d = go_busy d
  poll_state cooling_down true now d = keep_cooling d.cool_down_since now d
  poll_state cooling_down false now d = go_busy d
  poll_state leased idle now d = d
  poll_state paused idle now d = d

  -- The detector after a poll, and the state where it has changed.
  unfoldable pub poll : Reading R → IdleDetector R → IdleDetector R × Option IdleState
  unfolding same_state
  poll r d =
      let d' = poll_state d.state (user_idle d.threshold_pct r) r.now d in
      (d', if same_state d.state d'.state then none else some d'.state)
