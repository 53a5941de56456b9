-- ===== src/Coordinator/Jobs.antt =====
-- The consumer's endpoints of coordinator/src/api/rest.rs: submit_job and cancel_job. The UUIDs that a
-- handler draws are its last arguments.
pub mod Funds
pub mod Submitting
pub mod Cancelling
use mathlib.Core.Option
use Prim.Native.String.{String}
use text.Mathlib.Text.{◌==◌ as str_eq}
use neuralmesh.Common.{◌&&◌, ℕ, Option, true, false, none, some, Bool, if◌then◌else◌, ◌==◌}
use neuralmesh.Common.Int.{ℤ, pos}
use neuralmesh.Coordinator.Rows.{
  locked, cancelled, available, JobState, Provider, Credit, queued, escrow_lock, complete, released,
  Job, EscrowState, failed, Escrow, Store, by_id,
}
use neuralmesh.Coordinator.Store.{
  add_null, unwrap_or, ◌>>◌, on_jobs, Db, get_now, sub_null, or_fail, query, on_credits,
  greatest_null, insert_escrow, fail, on_providers, insert_transaction, on_escrows, exec, not_found,
  ignore, ◌>>=◌, pure, payment_required, fail_if,
}
use neuralmesh.Database.{update_where, RowId, update_key, scan, insert_row, first, is_id}
use neuralmesh.Float.{Float}

pub record SubmitJobBody (R : Float) : Type 0 where
  pub account_id : RowId
  pub runtime : String
  pub min_ram_gb : ℤ
  pub max_duration_secs : ℤ
  pub max_price_per_hour : R.F
  pub bundle_hash : Option String
  pub bundle_url : Option String
  pub script_name : Option String
  pub preferred_region : Option String

-- The JSON of a successful submission.
pub record Submitted (R : Float) : Type 0 where
  pub job_id : RowId
  pub locked_nmc : R.F

pub data CancelReply : Type 0 where
  already_terminal : JobState → CancelReply
  cancelled_job : RowId → CancelReply

abbrev pub runtime_int : String → ℤ
runtime_int s =
    if str_eq s "mlx"
    then pos 0
    else if str_eq s "torch-mps"
    then pos 1
    else if str_eq s "onnx-coreml"
    then pos 2
    else if str_eq s "llama-cpp"
    then pos 3
    else pos 4

abbrev pub is_terminal : JobState → Bool
is_terminal complete = true
is_terminal failed = true
is_terminal cancelled = true
is_terminal _ = false

abbrev pub is_locked : EscrowState → Bool
is_locked locked = true
is_locked released = false

-- `credit.map(|c| c.available_nmc.unwrap_or(0.0)).unwrap_or(0.0)`
abbrev pub available_of : (R : Float) → Option (Credit R) → R.F
available_of R none = R.lit 0 0
available_of R (some c) = unwrap_or c.available_nmc (R.lit 0 0)

abbrev pub available_column : {R : Float} → Option (Credit R) → Option R.F
available_column none = none
available_column (some c) = c.available_nmc

-- `price * (secs as f64 / 3600.0)`
abbrev pub hourly_cost : (R : Float) → R.F → ℤ → R.F
hourly_cost R price secs = R.mul price (R.div (R.of_int secs) (R.lit 3600 0))

-- SELECT locked_nmc FROM escrows WHERE job_id = $1 AND state = 'locked' LIMIT 1
abbrev pub locked_for : {R : Float} → RowId → Escrow R → Bool
locked_for job_id e = e.job_id == job_id && is_locked e.state

abbrev pub amount_of : {R : Float} → Option (Escrow R) → Option R.F
amount_of none = none
amount_of (some e) = some e.locked_nmc

unfoldable pub locked_amount : {R : Float} → RowId → Store R → Option R.F
unfolding scan
locked_amount job_id s = amount_of (first (scan (locked_for job_id) s.escrows))

module _ {R : Float} where
  unfoldable pub new_job : SubmitJobBody R → RowId → Job R
  new_job body job_id = record {
    job_id = job_id;
    consumer_id = body.account_id;
    provider_id = none;
    runtime = some (runtime_int body.runtime);
    min_ram_gb = some body.min_ram_gb;
    max_duration_s = some body.max_duration_secs;
    max_price_per_hour = some body.max_price_per_hour;
    price_per_hour = none;
    bundle_hash = body.bundle_hash;
    bundle_url = body.bundle_url;
    consumer_ssh_pubkey = none;
    consumer_wg_pubkey = none;
    script_name = body.script_name;
    preferred_region = body.preferred_region;
    state = queued;
    output_hash = none;
    actual_runtime_s = none;
    wireguard_endpoint = none;
    ssh_port = some (pos 2222);
    started_at = none;
    completed_at = none;
    checkpoint_url = none;
    checkpoint_iter = pos 0;
    last_heartbeat = none;
    restore_attempts = 0;
    failure_reason = none;
    output_log = none;
  }

  abbrev pub insert_job : Job R → Store R → Option (Store R)
  insert_job j s = Option.map (λ js. record s { jobs = js }) (insert_row j.job_id j s.jobs)

  abbrev pub lock_credit : R.F → Credit R → Credit R
  lock_credit m c = record c {
    available_nmc = sub_null R c.available_nmc (some m);
    escrowed_nmc = add_null R c.escrowed_nmc (some m);
  }

  unfoldable pub submit_job : SubmitJobBody R → RowId → RowId → RowId → Db R (Submitted R)
  unfolding new_job
  submit_job body job_id escrow_id tx_id = do
    credit ← query (λ s. s.credits.row body.account_id)
    let available = available_of R credit
    let max_cost = hourly_cost R body.max_price_per_hour body.max_duration_secs
    fail_if (R.lt available max_cost) payment_required
    exec (insert_job (new_job body job_id))
    exec (on_credits (update_key body.account_id (lock_credit max_cost)))
    exec (
        insert_escrow (record {
          escrow_id = escrow_id;
          job_id = job_id;
          consumer_id = body.account_id;
          provider_id = none;
          locked_nmc = max_cost;
          state = locked;
          settled_at = none;
        }))
    exec (λ s.
        insert_transaction
          (record {
            tx_id = tx_id;
            account_id = body.account_id;
            tx_type = escrow_lock;
            amount_nmc = R.neg max_cost;
            balance_after = available_column (s.credits.row body.account_id);
            reference = some (by_id job_id);
          })
          s)
    pure (record { job_id = job_id; locked_nmc = max_cost })

  -- Both amounts are read before the row changes. Without a locked escrow the first sum is NULL, and
  -- GREATEST ignores the NULL difference.
  abbrev pub refund_credit : Option R.F → Credit R → Credit R
  refund_credit amount c = record c {
    available_nmc = add_null R c.available_nmc amount;
    escrowed_nmc = greatest_null R (R.lit 0 0) (sub_null R c.escrowed_nmc amount);
  }

  abbrev pub release_row : ℕ → Escrow R → Escrow R
  release_row now e = record e { state = released; settled_at = some now }

  abbrev pub free_provider : Provider R → Provider R
  free_provider p = record p { state = available; active_job_id = none }

  unfoldable pub do_cancel : RowId → Job R → Db R CancelReply
  unfolding locked_amount
  do_cancel job_id job = do
    now ← get_now
    exec
        (on_jobs (update_key job_id (λ j. record j { state = cancelled; completed_at = some now })))
    exec (λ s. on_credits (update_key job.consumer_id (refund_credit (locked_amount job_id s))) s)
    exec (on_escrows (update_where (locked_for job_id) (release_row now)))
    ignore (exec (on_providers (update_where (λ p. is_id p.active_job_id job_id) free_provider)))
    pure (cancelled_job job_id)

  unfoldable pub cancel_job : RowId → Db R CancelReply
  unfolding do_cancel
  cancel_job job_id = do
    row ← query (λ s. s.jobs.row job_id)
    job ← or_fail row not_found
    (if is_terminal job.state then pure (already_terminal job.state) else do_cancel job_id job)
