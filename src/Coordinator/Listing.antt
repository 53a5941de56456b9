-- ===== src/Coordinator/Listing.antt =====
-- What coordinator/src/api/rest.rs shows of jobs: list_jobs_rest and get_job. A reply is a record; the
-- time of creation, which the rows do not have, is left out. A negative limit, which the database
-- refuses, is no argument here.
pub mod Viewing
use mathlib.Core.Option
use Prim.Native.String.{String}
use mathlib.Core.List.{reverse, map}
use text.Mathlib.Text.{◌==◌ as str_eq}
use neuralmesh.Common.{
  List, none, Bool, ◌∷◌, true, ℕ, ◌&&◌, [], some, Option, false, if◌then◌else◌, ◌==◌, length, take,
}
use neuralmesh.Common.Int.{◌+ℤ◌, ℤ, pos}
use neuralmesh.Coordinator.Matching.{is_available, int_at_least}
use neuralmesh.Coordinator.Migration.{is_leased, is_some}
use neuralmesh.Coordinator.Rows.{
  assigned, running, Provider, complete, failed, ProviderState, queued, Job, matching, migrating,
  cancelled, JobState, Store,
}
use neuralmesh.Coordinator.Store.{Db, query, or_fail, not_found, pure, ◌>>◌, ◌>>=◌, unwrap_or}
use neuralmesh.Database.{scan, RowId}
use neuralmesh.Float.{Float}

pub record JobView (R : Float) : Type 0 where
  pub job_id : RowId
  pub consumer_id : RowId
  pub provider_id : Option RowId
  pub state : JobState
  pub runtime : String
  pub min_ram_gb : Option ℤ
  pub max_price_per_hour : Option R.F
  pub price_per_hour : Option R.F
  pub bundle_hash : Option String
  pub bundle_url : Option String
  pub output_hash : Option String
  pub actual_cost_nmc : Option R.F
  pub actual_runtime_s : Option ℤ
  pub restore_attempts : ℕ
  pub failure_reason : Option String
  pub has_checkpoint : Bool
  pub checkpoint_iter : ℤ
  pub started_at : Option ℕ
  pub completed_at : Option ℕ

pub record JobLine (R : Float) : Type 0 where
  pub job_id : RowId
  pub consumer_id : RowId
  pub provider_id : Option RowId
  pub state : JobState
  pub runtime : String
  pub min_ram_gb : Option ℤ
  pub max_price_per_hour : Option R.F
  pub bundle_hash : Option String
  pub actual_cost_nmc : Option R.F
  pub has_checkpoint : Bool
  pub started_at : Option ℕ
  pub completed_at : Option ℕ

pub record JobQuery : Type 0 where
  pub account_id : Option RowId
  pub state : Option String
  pub limit : Option ℕ

-- The name of a runtime from its number; every other number, and NULL, is a shell.
abbrev pub runtime_name : ℕ → String
runtime_name n =
    if n == 0
    then "mlx"
    else if n == 1
    then "torch-mps"
    else if n == 2
    then "onnx-coreml"
    else if n == 3
    then "llama-cpp"
    else "shell"

abbrev pub runtime_str : Option ℤ → String
runtime_str (some (pos n)) = runtime_name n
runtime_str _ = "shell"

-- The text of the column.
abbrev pub state_text : JobState → String
state_text queued = "queued"
state_text matching = "matching"
state_text assigned = "assigned"
state_text running = "running"
state_text migrating = "migrating"
state_text complete = "complete"
state_text failed = "failed"
state_text cancelled = "cancelled"

-- `$1 IS NULL OR column = $1`
abbrev pub any_or : {A : Type 0} → (A → Bool) → Option A → Bool
any_or p none = true
any_or p (some a) = p a

abbrev pub actual_cost_nmc : (R : Float) → Option R.F → Option ℤ → Option R.F
actual_cost_nmc R (some p) (some s) = some (R.mul p (R.div (R.of_int s) (R.lit 3600 0)))
actual_cost_nmc R _ _ = none

module _ {R : Float} where
  abbrev pub job_view : Job R → JobView R
  job_view r = record {
    job_id = r.job_id;
    consumer_id = r.consumer_id;
    provider_id = r.provider_id;
    state = r.state;
    runtime = runtime_str r.runtime;
    min_ram_gb = r.min_ram_gb;
    max_price_per_hour = r.max_price_per_hour;
    price_per_hour = r.price_per_hour;
    bundle_hash = r.bundle_hash;
    bundle_url = r.bundle_url;
    output_hash = r.output_hash;
    actual_cost_nmc = actual_cost_nmc R r.price_per_hour r.actual_runtime_s;
    actual_runtime_s = r.actual_runtime_s;
    restore_attempts = r.restore_attempts;
    failure_reason = r.failure_reason;
    has_checkpoint = is_some r.checkpoint_url;
    checkpoint_iter = r.checkpoint_iter;
    started_at = r.started_at;
    completed_at = r.completed_at;
  }

  unfoldable pub get_job : RowId → Db R (JobView R)
  get_job job_id = do
    row ← query (λ s. s.jobs.row job_id)
    r ← or_fail row not_found
    pure (job_view r)

  abbrev pub job_line : Job R → JobLine R
  job_line r = record {
    job_id = r.job_id;
    consumer_id = r.consumer_id;
    provider_id = r.provider_id;
    state = r.state;
    runtime = runtime_str r.runtime;
    min_ram_gb = r.min_ram_gb;
    max_price_per_hour = r.max_price_per_hour;
    bundle_hash = r.bundle_hash;
    actual_cost_nmc = actual_cost_nmc R r.price_per_hour r.actual_runtime_s;
    has_checkpoint = is_some r.checkpoint_url;
    started_at = r.started_at;
    completed_at = r.completed_at;
  }

  abbrev pub is_listed : JobQuery → Job R → Bool
  is_listed q r =
      any_or (λ k. r.consumer_id == k) q.account_id
      && any_or (λ s. str_eq (state_text r.state) s) q.state

  -- The newest first.
  unfoldable pub list_jobs_rest : JobQuery → Db R (List (JobLine R))
  unfolding scan
  list_jobs_rest q = do
    rows ← query (λ s. take (unwrap_or q.limit 50) (reverse (scan (is_listed q) s.jobs)))
    pure (map job_line rows)
