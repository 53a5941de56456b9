-- ===== src/Coordinator/Lifecycle/Completion.antt =====
-- What the end of a job, as it is reported, does to the accounts.
use neuralmesh.Common.{[], ◌≡◌, refl, some, eqb_refl, inl, inr, Bool-cases}
use neuralmesh.Coordinator.Lifecycle.{update_trust_score, fail_job, FailJobBody, release_all}
use neuralmesh.Coordinator.Rows.{failed, Job, Credit}
use neuralmesh.Coordinator.Store.{Conn}
use neuralmesh.Database.{RowId}
use neuralmesh.Float.{Float}

module _ {R : Float} where
  -- With no fault, a failure that is reported for a job, whatever its state and whoever reports
  -- it, gives the consumer, whose account exists, all that it has in escrow, for this job or
  -- another; the job has failed, and the escrows stay as they are.
  pub fail_job-releases :
      (job_id : RowId) (body : FailJobBody) (c : Conn R) (j : Job R) (cr : Credit R)
      → c.faults ≡ []
      → c.store.jobs.row job_id ≡ some j
      → c.store.credits.row j.consumer_id ≡ some cr
      → let after = (fail_job job_id body c).1.store in
        (after.jobs.row job_id ≡ some (record j { state = failed; completed_at = some c.now }))
        × (after.credits.row j.consumer_id ≡ some (release_all cr))
        × (after.escrows ≡ c.store.escrows)
  unfolding fail_job update_trust_score
  fail_job-releases job_id body c j cr f row credit = elim (Bool-cases body.slash) [
    | inl slashed ↦ (
      rw (f, eqb_refl job_id, row, slashed, eqb_refl job_id, row) refl,
      rw (f, eqb_refl job_id, row, slashed, eqb_refl j.consumer_id, credit) refl,
      rw (f, eqb_refl job_id, row, slashed) refl,
    )
    | inr kept ↦ (
      rw (f, eqb_refl job_id, row, kept, eqb_refl job_id, row) refl,
      rw (f, eqb_refl job_id, row, kept, eqb_refl j.consumer_id, credit) refl,
      rw (f, eqb_refl job_id, row, kept) refl,
    )
  ]
