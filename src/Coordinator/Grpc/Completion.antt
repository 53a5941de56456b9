-- ===== src/Coordinator/Grpc/Completion.antt =====
-- report_completion of coordinator/src/api/grpc.rs: the hours and the milestone rewards of a provider, and
-- calculate_credits of matching/mod.rs. The ledger's answer to a deposit, its third argument standing for
-- the reference, is a parameter: the transaction's id where it has one.
use mathlib.Core.Option
use neuralmesh.Common.{
  some, ◌&&◌, Bool, ℕ, zero, Option, none, ◌||◌, [], false, not, ◌∷◌, suc, List, if◌then◌else◌,
  ◌==◌,
}
use neuralmesh.Common.Int.{ℤ, eqb_ℤ, ◌-ℤ◌, pos, ◌+ℤ◌, ◌*ℤ◌, pos_part}
use neuralmesh.Coordinator.Grpc.{JobComplete, as_i64, is_zero, as_i32}
use neuralmesh.Coordinator.Rows.{
  release_escrow, Provider, MilestoneReward, Store, failed, Job, complete,
}
use neuralmesh.Coordinator.Store.{
  ◌>>◌, Db, recover, exec, exec_returning, on_jobs, send_oracle, unwrap_or, get_now, ignore, query,
  is_null, pure, ◌>>=◌,
}
use neuralmesh.Database.{update_key, RowId}
use neuralmesh.Float.{Float}

-- `(claimed + 1)..=earned` has this many numbers.
abbrev pub unclaimed : ℤ → ℤ → ℕ
unclaimed earned claimed = pos_part (earned -ℤ claimed)

abbrev pub total_hours : (R : Float) → Option R.F → R.F
total_hours R t = unwrap_or t (R.lit 0 0)

module _ {R : Float} where
  abbrev pub finish : ℕ → JobComplete → Job R → Job R
  finish now jc j = record j {
    state = if is_zero jc.exit_code then complete else failed;
    output_hash = some (jc.output_hash);
    actual_runtime_s = some (as_i64 jc.actual_runtime_s);
    completed_at = some now;
  }

  -- COALESCE(total_gpu_hours_contributed, 0.0) + $1
  abbrev pub add_hours : R.F → Provider R → Provider R
  add_hours hours p = record p {
    total_gpu_hours_contributed = some (R.add (total_hours R p.total_gpu_hours_contributed) hours);
  }

  -- RETURNING total_gpu_hours_contributed
  abbrev pub hours_of : Provider R → Option R.F
  hours_of p = p.total_gpu_hours_contributed

  abbrev pub contribute : RowId → R.F → Store R → Option (Option R.F) × Store R
  contribute provider_id hours s =
      let after = update_key provider_id (add_hours hours) s.providers in
      (Option.map hours_of (after.row provider_id), record s { providers = after })

  -- SELECT COUNT(*) FROM milestone_rewards WHERE provider_id = $1
  unfoldable pub count_claimed : RowId → List (MilestoneReward R) → ℕ
  count_claimed k [] = 0
  count_claimed k (w ∷ ws) =
      let rest = count_claimed k ws in if w.provider_id == k then suc rest else rest

  unfoldable pub is_claimed : RowId → ℤ → List (MilestoneReward R) → Bool
  is_claimed k hours [] = false
  is_claimed k hours (w ∷ ws) =
      let rest = is_claimed k hours ws in
      (w.provider_id == k && eqb_ℤ w.milestone_hours hours) || rest

  -- INSERT … ON CONFLICT (provider_id, milestone_hours) DO NOTHING: the provider must exist.
  unfoldable pub claim : MilestoneReward R → Store R → Option (Store R)
  unfolding is_claimed
  claim w s =
      if is_null (s.providers.row w.provider_id)
      then none
      else if is_claimed w.provider_id w.milestone_hours s.milestones
      then some s
      else some (record s { milestones = w ∷ s.milestones })

  -- The rewards numbered from `next` on, n of them.
  pub reward : (RowId → R.F → ℤ → Db R (Option RowId)) → RowId → ℕ → ℤ → Db R (Unit {0})
  unfolding claim
  reward post provider_id zero next = pure tt
  reward post provider_id (suc n) next = do
    tx_id ← post provider_id (R.lit 500 1) (next *ℤ pos 8)
    ignore (
        exec (
          claim (record {
            provider_id = provider_id;
            milestone_hours = next *ℤ pos 8;
            reward_hc = R.lit 500 1;
            account_id = provider_id;
            tx_id = tx_id;
          })))
    reward post provider_id n (next +ℤ pos 1)

  pub reward_hours :
      (RowId → R.F → ℤ → Db R (Option RowId)) → RowId → Option (Option R.F) → Db R (Unit {0})
  unfolding reward count_claimed
  reward_hours post provider_id none = pure tt
  reward_hours post provider_id (some total) = do
    claimed ← recover 0 (query (λ s. count_claimed provider_id s.milestones))
    let earned = R.to_i32 (R.div (total_hours R total) (R.lit 80 1))
    reward post provider_id (unclaimed earned (as_i32 claimed)) (as_i32 claimed +ℤ pos 1)

  -- The price of the runtime less the fee of 8%.
  abbrev pub credits_of : Option (Job R) → R.F
  credits_of none = R.lit 0 1
  credits_of (some j) =
      let gross =
        R.mul (unwrap_or j.price_per_hour (R.lit 0 1))
          (R.div (R.of_int (unwrap_or j.actual_runtime_s (pos 0))) (R.lit 36000 1)) in
      R.sub gross (R.mul gross (R.lit 8 2))

  pub calculate_credits : RowId → Db R R.F
  calculate_credits job_id = query (λ s. credits_of (s.jobs.row job_id))

  -- The hours of a completed job, and what they have earned.
  pub reward_provider : (RowId → R.F → ℤ → Db R (Option RowId)) → JobComplete → Db R (Unit {0})
  unfolding reward_hours
  reward_provider post jc = do
    updated ← recover none (
        exec_returning
          (contribute jc.provider_id (R.div (R.of_int (pos jc.actual_runtime_s)) (R.lit 36000 1))))
    reward_hours post jc.provider_id updated

  -- The credits that the reply reports.
  unfoldable pub report_completion :
      (RowId → R.F → ℤ → Db R (Option RowId)) → JobComplete → Db R R.F
  unfolding reward_provider calculate_credits
  report_completion post jc = do
    now ← get_now
    exec (on_jobs (update_key jc.job_id (finish now jc)))
    (if is_zero jc.exit_code && not (jc.provider_id == 0) then reward_provider post jc else pure tt)
    credits ← recover (R.lit 0 1) (calculate_credits jc.job_id)
    (if is_zero jc.exit_code then send_oracle (release_escrow jc.job_id credits) else pure tt)
    pure credits
