-- ===== src/Coordinator/Lifecycle.antt =====
-- The provider's endpoints of coordinator/src/api/rest.rs: poll for a job, report its end or its failure,
-- and its heartbeat; and the trust score.
pub mod Completion
pub mod Output
use Prim.Native.String.{String}
use neuralmesh.Common.{
  ◌&&◌, ℕ, Option, List, zero, true, false, ◌+◌, [], none, some, ◌∷◌, Bool, suc, if◌then◌else◌, ltb,
}
use neuralmesh.Common.Int.{ℤ, pos}
use neuralmesh.Coordinator.Jobs.{free_provider}
use neuralmesh.Coordinator.Rows.{
  TxType, available, cancel_escrow, JobState, running, assigned, Credit, complete, Job,
  release_escrow, failed, Store, by_id,
}
use neuralmesh.Coordinator.Store.{
  add_null, unwrap_or, ◌>>◌, on_jobs, Db, get_now, sub_null, or_fail, query, on_credits,
  greatest_null, on_providers, insert_transaction, get_oracle, exec, not_found, ignore, ◌>>=◌, pure,
  send_oracle,
}
use neuralmesh.Database.{RowId, update_key, scan, is_id, upsert_row}
use neuralmesh.Float.{Float}

abbrev pub is_assigned : JobState → Bool
is_assigned assigned = true
is_assigned _ = false

-- What the poll returns of a job: no checkpoint and no count of restores.
pub record AssignedJob (R : Float) : Type 0 where
  pub job_id : RowId
  pub consumer_id : RowId
  pub runtime : Option ℤ
  pub min_ram_gb : Option ℤ
  pub max_duration_s : Option ℤ
  pub max_price_per_hour : Option R.F
  pub bundle_hash : Option String
  pub bundle_url : Option String
  pub script_name : Option String
  pub consumer_ssh_pubkey : Option String
  pub consumer_wg_pubkey : Option String
  pub preferred_region : Option String

pub record CompleteJobBody : Type 0 where
  pub provider_id : RowId
  pub exit_code : ℤ
  pub output_hash : String
  pub actual_runtime_s : ℤ

pub record Completed (R : Float) : Type 0 where
  pub gross_nmc : R.F
  pub provider_nmc : R.F
  pub platform_nmc : R.F
  pub on_chain : Bool

pub record FailJobBody : Type 0 where
  pub provider_id : RowId
  pub slash : Bool

-- ORDER BY started_at ASC LIMIT 1, where NULLs come last.
abbrev pub starts_before : {R : Float} → Job R → Job R → Bool
starts_before j k = elim j.started_at [
  | none ↦ false
  | some a ↦ elim k.started_at [ none ↦ true | some b ↦ ltb a b ]
]

abbrev pub earliest : {R : Float} → List (Job R) → Option (Job R)
earliest [] = none
earliest (j ∷ js) = elim (earliest js) [
  | none ↦ some j
  | some k ↦ some (if starts_before k j then k else j)
]

abbrev pub platform_fee : (R : Float) → R.F
platform_fee R = R.lit 8 2

-- `GREATEST(0.0, LEAST(5.0, trust_score + $1))`
abbrev pub clamp_trust : (R : Float) → Option R.F → R.F → Option R.F
clamp_trust R none delta = some (R.greatest (R.lit 0 0) (R.lit 5 0))
clamp_trust R (some t) delta = some (R.greatest (R.lit 0 0) (R.least (R.lit 5 0) (R.add t delta)))

-- `CASE WHEN jobs_completed > 0 THEN (success_rate * (jobs_completed - 1) + $2) / jobs_completed ELSE $2 END`
abbrev pub next_rate : (R : Float) → Option R.F → ℕ → R.F → Option R.F
next_rate R rate zero outcome = some outcome
next_rate R none (suc n) outcome = none
next_rate R (some r) (suc n) outcome =
    some (R.div (R.add (R.mul r (R.of_int (pos n))) outcome) (R.of_int (pos (suc n))))

module _ {R : Float} where
  unfoldable pub update_trust_score : RowId → Bool → Db R (Unit {0})
  update_trust_score provider_id success =
      let delta = if success then R.lit 5 2 else R.neg (R.lit 30 2) in
      let outcome = if success then R.lit 1 0 else R.lit 0 0 in
      ignore (
        exec (
          on_providers (
            update_key provider_id (λ p. record p {
              trust_score = clamp_trust R p.trust_score delta;
              success_rate = next_rate R p.success_rate p.jobs_completed outcome;
            }))))

  pub assigned_job : Job R → AssignedJob R
  assigned_job j = record {
    job_id = j.job_id;
    consumer_id = j.consumer_id;
    runtime = j.runtime;
    min_ram_gb = j.min_ram_gb;
    max_duration_s = j.max_duration_s;
    max_price_per_hour = j.max_price_per_hour;
    bundle_hash = j.bundle_hash;
    bundle_url = j.bundle_url;
    script_name = j.script_name;
    consumer_ssh_pubkey = j.consumer_ssh_pubkey;
    consumer_wg_pubkey = j.consumer_wg_pubkey;
    preferred_region = j.preferred_region;
  }

  pub start_job : Option (Job R) → Db R (Option (AssignedJob R))
  unfolding assigned_job
  start_job none = pure none
  start_job (some j) = do
    ignore (exec (on_jobs (update_key j.job_id (λ k. record k { state = running }))))
    pure (some (assigned_job j))

  unfoldable pub get_assigned_job : RowId → Db R (Option (AssignedJob R))
  unfolding start_job scan
  get_assigned_job provider_id = do
    job ←
        query (λ s.
          earliest (scan (λ j. is_id j.provider_id provider_id && is_assigned j.state) s.jobs))
    start_job job

  -- WHERE job_id = $1 AND provider_id = $2
  abbrev pub owned_by : RowId → Option (Job R) → Option (Job R)
  owned_by provider_id none = none
  owned_by provider_id (some j) = if is_id j.provider_id provider_id then some j else none

  abbrev pub job_of : RowId → RowId → Store R → Option (Job R)
  job_of job_id provider_id s = owned_by provider_id (s.jobs.row job_id)

  abbrev pub earn : R.F → Credit R → Credit R
  earn m c = record c {
    available_nmc = add_null R c.available_nmc (some m);
    total_earned_nmc = add_null R c.total_earned_nmc (some m);
  }

  abbrev pub earner : RowId → R.F → Credit R
  earner k m = record {
    account_id = k;
    available_nmc = some m;
    escrowed_nmc = some (R.lit 0 0);
    total_earned_nmc = some m;
    total_spent_nmc = some (R.lit 0 0);
  }

  abbrev pub spend : R.F → Credit R → Credit R
  spend m c = record c {
    escrowed_nmc = greatest_null R (R.lit 0 0) (sub_null R c.escrowed_nmc (some m));
    total_spent_nmc = add_null R c.total_spent_nmc (some m);
  }

  abbrev pub gross_of : Job R → ℤ → R.F
  gross_of job secs =
      R.mul (unwrap_or job.price_per_hour (R.lit 5 2)) (R.div (R.of_int secs) (R.lit 3600 0))

  unfoldable pub complete_job : RowId → CompleteJobBody → RowId → Db R (Completed R)
  unfolding update_trust_score
  complete_job job_id body tx_id = do
    row ← query (job_of job_id body.provider_id)
    job ← or_fail row not_found
    let gross_nmc = gross_of job body.actual_runtime_s
    let provider_nmc = R.mul gross_nmc (R.sub (R.lit 1 0) (platform_fee R))
    let platform_nmc = R.mul gross_nmc (platform_fee R)
    now ← get_now
    exec (
        on_jobs (
          update_key job_id (λ j. record j {
            state = complete;
            output_hash = some body.output_hash;
            actual_runtime_s = some body.actual_runtime_s;
            completed_at = some now;
          })))
    exec (
        on_credits
          (upsert_row body.provider_id (earner body.provider_id provider_nmc) (earn provider_nmc)))
    exec (on_credits (update_key job.consumer_id (spend gross_nmc)))
    exec (
        on_providers (
          update_key body.provider_id (λ p. record p {
            state = available;
            active_job_id = none;
            jobs_completed = p.jobs_completed + 1;
          })))
    exec (
        insert_transaction (record {
          tx_id = tx_id;
          account_id = body.provider_id;
          tx_type = TxType.earn;
          amount_nmc = provider_nmc;
          balance_after = none;
          reference = some (by_id job_id);
        }))
    update_trust_score body.provider_id true
    send_oracle (release_escrow job_id gross_nmc)
    on_chain ← get_oracle
    pure (record {
      gross_nmc = gross_nmc;
      provider_nmc = provider_nmc;
      platform_nmc = platform_nmc;
      on_chain = on_chain;
    })

  -- SET available_nmc = available_nmc + escrowed_nmc, escrowed_nmc = 0.0
  abbrev pub release_all : Credit R → Credit R
  release_all c = record c {
    available_nmc = add_null R c.available_nmc c.escrowed_nmc;
    escrowed_nmc = some (R.lit 0 0);
  }

  -- WHERE account_id = (SELECT consumer_id FROM jobs WHERE job_id = $1)
  abbrev pub on_consumer : Option (Job R) → (Credit R → Credit R) → Store R → Option (Store R)
  on_consumer none f s = some s
  on_consumer (some j) f s = on_credits (update_key j.consumer_id f) s

  abbrev pub for_consumer : RowId → (Credit R → Credit R) → Store R → Option (Store R)
  for_consumer job_id f s = on_consumer (s.jobs.row job_id) f s

  unfoldable pub fail_job : RowId → FailJobBody → Db R RowId
  unfolding update_trust_score
  fail_job job_id body = do
    now ← get_now
    exec (on_jobs (update_key job_id (λ j. record j { state = failed; completed_at = some now })))
    exec (for_consumer job_id release_all)
    exec (on_providers (update_key body.provider_id free_provider))
    (if body.slash then update_trust_score body.provider_id false else pure tt)
    send_oracle (cancel_escrow job_id)
    pure job_id

  unfoldable pub job_heartbeat : RowId → RowId → R.F → ℤ → Db R (Unit {0})
  job_heartbeat job_id provider_id gpu_util_pct ram_used_gb = do
    now ← get_now
    exec (
        on_jobs (
          update_key job_id (λ j.
            if is_id j.provider_id provider_id
            then record j { state = running; last_heartbeat = some now }
            else j)))
    exec (
        on_providers (
          update_key provider_id (λ p. record p {
            last_seen = some now;
            gpu_util_pct = some gpu_util_pct;
            ram_used_gb = some ram_used_gb;
          })))
