-- ===== src/Coordinator/Jobs/Cancelling.antt =====
-- What a cancellation does: the refund, the refusal, and a job without an escrow.
use neuralmesh.Common.{[], ◌≡◌, false, none, some, true, arith, ℕ, Option, refl}
use neuralmesh.Coordinator.Jobs.{
  cancelled_job, is_terminal, locked_amount, locked_for, release_row, cancel_job, do_cancel,
  already_terminal, free_provider, refund_credit,
}
use neuralmesh.Coordinator.Rows.{cancelled, Credit, Escrow, Provider, Job, available, Store}
use neuralmesh.Coordinator.Store.{Conn, ok}
use neuralmesh.Database.{RowId, is_id, update_key, update_where}
use neuralmesh.Float.{Float}

module _ {R : Float} where
  -- The database after the statements of a cancellation, none of which fails.
  abbrev after_cancel : RowId → Job R → ℕ → Option R.F → Store R → Store R
  after_cancel job_id j now amount s = record s {
    jobs = update_key job_id (λ k. record k { state = cancelled; completed_at = some now }) s.jobs;
    credits = update_key j.consumer_id (refund_credit amount) s.credits;
    escrows = update_where (locked_for job_id) (release_row now) s.escrows;
    providers = update_where (λ p. is_id p.active_job_id job_id) free_provider s.providers;
  }

  do_cancel-eq :
      (job_id : RowId) (j : Job R) (c : Conn R)
      → c.faults ≡ []
      → do_cancel job_id j c ≡ (
        ok (cancelled_job job_id),
        record c {
          faults = [];
          store = after_cancel job_id j c.now (locked_amount job_id c.store) c.store;
        },
      )
  unfolding do_cancel locked_amount
  do_cancel-eq job_id j c f = rw f

  cancel_job-eq :
      (job_id : RowId) (c : Conn R) (j : Job R)
      → c.faults ≡ []
      → c.store.jobs.row job_id ≡ some j
      → is_terminal j.state ≡ false
      → cancel_job job_id c ≡ do_cancel job_id j c
  unfolding cancel_job
  cancel_job-eq job_id c j f row going = rw (f, row, going)

  -- A job that has ended cannot be cancelled: the answer is its state, and nothing changes.
  pub cancel_job-ended :
      (job_id : RowId) (c : Conn R) (j : Job R)
      → c.faults ≡ []
      → c.store.jobs.row job_id ≡ some j
      → is_terminal j.state ≡ true
      → cancel_job job_id c ≡ (ok (already_terminal j.state), c)
  unfolding cancel_job
  cancel_job-ended job_id c j a b d = ground arith

  -- With no fault, a job that has not ended and has an amount locked is cancelled, and the consumer gets
  -- that amount back from escrow, the rest of escrow staying at 0 or above. The provider that holds
  -- the job is free again, and each escrow of the job that was locked is released.
  pub cancel_job-refunds :
      (job_id : RowId) (c : Conn R) (j : Job R) (cr : Credit R) (m a e : R.F)
      → c.faults ≡ []
      → c.store.jobs.row job_id ≡ some j
      → is_terminal j.state ≡ false
      → locked_amount job_id c.store ≡ some m
      → c.store.credits.row j.consumer_id ≡ some cr
      → cr.available_nmc ≡ some a
      → cr.escrowed_nmc ≡ some e
      → let after = cancel_job job_id c in
        (after.0 ≡ ok (cancelled_job job_id))
        × (after.1.store.jobs.row job_id
            ≡ some (record j { state = cancelled; completed_at = some c.now }))
        × (after.1.store.credits.row j.consumer_id
            ≡ some (record cr {
              available_nmc = some (R.add a m);
              escrowed_nmc = some (R.greatest (R.lit 0 0) (R.sub e m));
            }))
        × ((k : RowId) (p : Provider R)
            → c.store.providers.row k ≡ some p
            → p.active_job_id ≡ some job_id
            → after.1.store.providers.row k
              ≡ some (record p { state = available; active_job_id = none }))
        × ((k : RowId) (w : Escrow R)
            → c.store.escrows.row k ≡ some w
            → locked_for job_id w ≡ true
            → after.1.store.escrows.row k ≡ some (release_row c.now w))
  cancel_job-refunds job_id c j cr m a e f row going amount credit known held =
      rw (cancel_job-eq job_id c j f row going, do_cancel-eq job_id j c f, amount)
        (refl, ground arith, ground arith, λ k p q r. ground arith, λ k w q r. ground arith)

  -- With no fault, cancelling a job that has not ended and has no locked escrow makes the
  -- available balance of its consumer NULL and sets all that the consumer has in escrow to 0.
  pub cancel_job-wipes :
      (job_id : RowId) (c : Conn R) (j : Job R) (cr : Credit R)
      → c.faults ≡ []
      → c.store.jobs.row job_id ≡ some j
      → is_terminal j.state ≡ false
      → locked_amount job_id c.store ≡ none
      → c.store.credits.row j.consumer_id ≡ some cr
      → (cancel_job job_id c).1.store.credits.row j.consumer_id
        ≡ some (record cr { available_nmc = none; escrowed_nmc = some (R.lit 0 0) })
  cancel_job-wipes job_id c j cr f row going amount credit =
      rw (cancel_job-eq job_id c j f row going, do_cancel-eq job_id j c f, amount) (ground arith)
