-- ===== src/Agent/Runtimes.antt =====
-- What a polled job runs as.
use mathlib.Core.Option.{some-injective}
use neuralmesh.Common.{Option, ◌≡◌, arith, refl, some, none, subst}
use neuralmesh.Agent.Polling.{poll_for_job, JobSpec, shell, from_str, as_str, json_of, integer}
use neuralmesh.Common.Int.{ℤ}
use neuralmesh.Coordinator.Lifecycle.{get_assigned_job, AssignedJob}
use neuralmesh.Coordinator.Store.{unwrap_or, ok, err, Reply, Conn}
use neuralmesh.Database.{RowId}
use neuralmesh.Float.{Float}

decoded :
    (R : Float) (n : Option ℤ)
    → unwrap_or (from_str (unwrap_or (as_str (json_of {R = R} integer n)) "shell")) shell ≡ shell
decoded R none = refl
decoded R (some n) = refl

module _ {R : Float} where
  abbrev IsFresh : JobSpec R → Type 0
  IsFresh spec = (spec.runtime ≡ shell) × (spec.checkpoint_url ≡ none) × (spec.restore_attempts ≡ 0)

  poll_for_job-IsFresh :
      (parse_uuid : RowId → Option RowId) (reply : Reply (Option (AssignedJob R)))
      (spec : JobSpec R)
      → poll_for_job parse_uuid reply ≡ some spec
      → IsFresh spec
  unfolding poll_for_job
  poll_for_job-IsFresh parse_uuid (err x) spec e = absurd (ground arith)
  poll_for_job-IsFresh parse_uuid (ok none) spec e = absurd (ground arith)
  poll_for_job-IsFresh parse_uuid (ok (some j)) spec e =
      subst IsFresh (some-injective _ _ e) (decoded R j.runtime, refl, refl)

  -- A job that the agent polls for runs as a shell job and starts afresh, whatever runtime was asked
  -- for and whatever checkpoint was saved.
  pub get_assigned_job-poll_for_job :
      (parse_uuid : RowId → Option RowId) (provider_id : RowId) (c : Conn R) (spec : JobSpec R)
      → poll_for_job parse_uuid (get_assigned_job provider_id c).0 ≡ some spec
      → (spec.runtime ≡ shell) × (spec.checkpoint_url ≡ none) × (spec.restore_attempts ≡ 0)
  get_assigned_job-poll_for_job parse_uuid provider_id c spec e =
      poll_for_job-IsFresh parse_uuid (get_assigned_job provider_id c).0 spec e
