-- ===== src/Coordinator/Jobs/Submitting.antt =====
-- How a submission ends where no statement fails.
use neuralmesh.Common.{true, [], arith, some, refl, none, ◌≡◌, false, eqb_refl}
use neuralmesh.Coordinator.Jobs.{
  submit_job, available_of, hourly_cost, lock_credit, SubmitJobBody, new_job,
}
use neuralmesh.Coordinator.Rows.{locked, Credit}
use neuralmesh.Coordinator.Store.{ok, err, payment_required, Conn, unwrap_or}
use neuralmesh.Database.{RowId}
use neuralmesh.Float.{Float}

module _ {R : Float} where
  -- With enough available, no fault and no id that is taken, a submission queues the job, moves its
  -- full price for the whole duration from what is available into escrow, and records the escrow;
  -- the providers stay as they are.
  pub submit_job-eq-ok :
      (body : SubmitJobBody R) (job_id escrow_id tx_id : RowId) (c : Conn R) (cr : Credit R)
      → c.faults ≡ []
      → c.store.credits.row body.account_id ≡ some cr
      → R.lt
          (unwrap_or cr.available_nmc (R.lit 0 0))
          (hourly_cost R body.max_price_per_hour body.max_duration_secs)
        ≡ false
      → c.store.jobs.row job_id ≡ none
      → c.store.escrows.row escrow_id ≡ none
      → c.store.transactions.row tx_id ≡ none
      → let cost = hourly_cost R body.max_price_per_hour body.max_duration_secs in
        let after = submit_job body job_id escrow_id tx_id c in
        (after.0 ≡ ok (record { job_id = job_id; locked_nmc = cost }))
        × (after.1.store.jobs.row job_id ≡ some (new_job body job_id))
        × (after.1.store.credits.row body.account_id ≡ some (lock_credit cost cr))
        × (after.1.store.escrows.row escrow_id
            ≡ some (record {
              escrow_id = escrow_id;
              job_id = job_id;
              consumer_id = body.account_id;
              provider_id = none;
              locked_nmc = cost;
              state = locked;
              settled_at = none;
            }))
        × (after.1.store.providers ≡ c.store.providers)
  unfolding submit_job
  submit_job-eq-ok body job_id escrow_id tx_id c cr a b d e f g = (
    rw (a, b, d, e, eqb_refl job_id, f, g) refl,
    rw (a, b, d, e, eqb_refl job_id, f, g, eqb_refl job_id) refl,
    rw (a, b, d, e, eqb_refl job_id, f, g, eqb_refl body.account_id, b) refl,
    rw (a, b, d, e, eqb_refl job_id, f, g, eqb_refl escrow_id) refl,
    rw (a, b, d, e, eqb_refl job_id, f, g) refl,
  )

  -- With no fault, a submission for which too little is available is refused, and changes nothing.
  pub submit_job-poor :
      (body : SubmitJobBody R) (job_id escrow_id tx_id : RowId) (c : Conn R)
      → c.faults ≡ []
      → R.lt
          (available_of R (c.store.credits.row body.account_id))
          (hourly_cost R body.max_price_per_hour body.max_duration_secs)
        ≡ true
      → submit_job body job_id escrow_id tx_id c ≡ (err payment_required, c)
  unfolding submit_job
  submit_job-poor body job_id escrow_id tx_id c h k = ground arith
