-- ===== src/Coordinator/Migration.antt =====
-- What becomes of a job whose provider falls silent: the watcher of coordinator/src/matching/mod.rs and
-- the eviction of coordinator/src/reputation/mod.rs. `last_seen` is compared in whole seconds.
pub mod Eviction
pub mod Outcome
pub mod Stranded
use Prim.Native.String.{String}
use neuralmesh.Common.{
  Bool, ◌&&◌, ◌+◌, not, true, none, some, List, false, ◌∷◌, Option, ℕ, [], ◌||◌, ltb, if◌then◌else◌,
}
use neuralmesh.Coordinator.Jobs.{release_row, locked_for}
use neuralmesh.Coordinator.Matching.{is_available}
use neuralmesh.Coordinator.Rows.{
  JobState, ProviderState, Provider, running, assigned, Credit, queued, leased, escrow_release, Job,
  offline, failed, Escrow, Store, by_id,
}
use neuralmesh.Coordinator.Store.{
  add_null, ◌>>◌, on_jobs, Db, get_now, sub_null, query, on_credits, greatest_null, on_providers,
  insert_transaction, on_escrows, exec, ignore, ◌>>=◌, pure,
}
use neuralmesh.Database.{update_where, update_key, scan, RowId, first, upsert_row}
use neuralmesh.Float.{Float}

abbrev pub provider_timeout_secs : ℕ
provider_timeout_secs = 120

abbrev pub max_restore_attempts : ℕ
max_restore_attempts = 3

abbrev pub eviction_secs : ℕ
eviction_secs = 90

-- `last_seen < now() - INTERVAL`
abbrev pub silent_for : ℕ → ℕ → Option ℕ → Bool
silent_for secs now none = false
silent_for secs now (some seen) = ltb (seen + secs) now

abbrev pub is_leased : ProviderState → Bool
is_leased leased = true
is_leased _ = false

abbrev pub in_progress : JobState → Bool
in_progress running = true
in_progress assigned = true
in_progress _ = false

abbrev pub is_some : {A : Type 0} → Option A → Bool
is_some none = false
is_some (some _) = true

-- `GREATEST(0.0, LEAST(5.0, trust_score - 0.20))`
abbrev pub penalty : (R : Float) → Option R.F → Option R.F
penalty R none = some (R.greatest (R.lit 0 0) (R.lit 5 0))
penalty R (some t) = some (R.greatest (R.lit 0 0) (R.least (R.lit 5 0) (R.sub t (R.lit 20 2))))

module _ {R : Float} where
  abbrev pub give_back : R.F → Credit R → Credit R
  give_back m c = record c {
    available_nmc = add_null R c.available_nmc (some m);
    escrowed_nmc = greatest_null R (R.lit 0 0) (sub_null R c.escrowed_nmc (some m));
  }

  abbrev pub depositor : RowId → R.F → Credit R
  depositor k m = record {
    account_id = k;
    available_nmc = some m;
    escrowed_nmc = some (R.lit 0 0);
    total_earned_nmc = some (R.lit 0 0);
    total_spent_nmc = some (R.lit 0 0);
  }

  pub refund_escrow : RowId → RowId → Escrow R → Db R (Unit {0})
  refund_escrow job_id tx_id e = do
    now ← get_now
    exec (on_escrows (update_key e.escrow_id (release_row now)))
    exec (
        on_credits (
          upsert_row e.consumer_id (depositor e.consumer_id e.locked_nmc) (give_back e.locked_nmc)))
    exec (
        insert_transaction (record {
          tx_id = tx_id;
          account_id = e.consumer_id;
          tx_type = escrow_release;
          amount_nmc = e.locked_nmc;
          balance_after = none;
          reference = some (by_id job_id);
        }))

  pub refund_found : RowId → RowId → Option (Escrow R) → Db R (Unit {0})
  unfolding refund_escrow
  refund_found job_id tx_id none = pure tt
  refund_found job_id tx_id (some e) = refund_escrow job_id tx_id e

  unfoldable pub refund_consumer_escrow : RowId → RowId → Db R (Unit {0})
  unfolding scan refund_found
  refund_consumer_escrow job_id tx_id = do
    escrow ← query (λ s. first (scan (locked_for job_id) s.escrows))
    refund_found job_id tx_id escrow

  abbrev pub requeue : Job R → Job R
  requeue j = record j {
    state = queued;
    provider_id = none;
    failure_reason = some "provider_disconnect_checkpoint_restore";
  }

  abbrev pub give_up : ℕ → String → Job R → Job R
  give_up now reason j = record j {
    state = failed;
    completed_at = some now;
    failure_reason = some reason;
  }

  pub fail_disconnected : RowId → RowId → RowId → String → Db R (Unit {0})
  unfolding refund_consumer_escrow
  fail_disconnected job_id provider_id tx_id reason = do
    now ← get_now
    exec (on_jobs (update_key job_id (give_up now reason)))
    ignore (refund_consumer_escrow job_id tx_id)
    ignore (
        exec (
          on_providers
            (update_key provider_id (λ p. record p { trust_score = penalty R p.trust_score }))))

  -- The job is re-queued, failed, or left as it is.
  unfoldable pub migrate : RowId → RowId → RowId → Option (Job R) → Db R (Unit {0})
  unfolding fail_disconnected
  migrate job_id provider_id tx_id none = pure tt
  migrate job_id provider_id tx_id (some job) =
      let has_checkpoint = is_some job.checkpoint_url in
      if not (in_progress job.state)
      then pure tt
      else if has_checkpoint && ltb job.restore_attempts max_restore_attempts
      then exec (on_jobs (update_key job_id requeue))
      else fail_disconnected job_id provider_id tx_id (
          if has_checkpoint
          then "Max restore attempts (3) exceeded"
          else "Provider disconnected with no checkpoint")

  unfoldable pub migrate_or_fail_job : RowId → RowId → RowId → Db R (Unit {0})
  unfolding migrate
  migrate_or_fail_job job_id provider_id tx_id = do
    job ← query (λ s. s.jobs.row job_id)
    migrate job_id provider_id tx_id job

  pub migrate_active : Option RowId → RowId → RowId → Db R (Unit {0})
  unfolding migrate_or_fail_job
  migrate_active none provider_id tx_id = pure tt
  migrate_active (some job_id) provider_id tx_id = migrate_or_fail_job job_id provider_id tx_id

  -- One pass over the providers that were found: the UUID of each refund is drawn in turn.
  pub watch : (ℕ → RowId) → ℕ → List (Provider R) → Db R (Unit {0})
  unfolding migrate_active
  watch uuid n [] = pure tt
  watch uuid n (p ∷ ps) = do
    exec (
        on_providers
          (update_key p.provider_id (λ q. record q { state = offline; active_job_id = none })))
    migrate_active p.active_job_id p.provider_id (uuid n)
    watch uuid (n + 1) ps

  pub stale_providers : ℕ → Store R → List (Provider R)
  unfolding scan
  stale_providers now s =
      scan (λ p. is_leased p.state && silent_for provider_timeout_secs now p.last_seen) s.providers

  unfoldable pub check_stale_providers : (ℕ → RowId) → Db R (Unit {0})
  unfolding stale_providers watch
  check_stale_providers uuid = do
    now ← get_now
    stale ← query (stale_providers now)
    watch uuid 0 stale

  abbrev pub is_evicted : ℕ → Provider R → Bool
  is_evicted now p =
      (is_available p.state || is_leased p.state) && silent_for eviction_secs now p.last_seen

  -- The number of rows that it returns is only logged.
  unfoldable pub evict_stale_providers : Db R (Unit {0})
  evict_stale_providers = do
    now ← get_now
    exec (
        on_providers
          (update_where (is_evicted now) (λ p. record p { state = offline; active_job_id = none })))
