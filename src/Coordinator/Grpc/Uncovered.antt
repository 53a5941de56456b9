-- ===== src/Coordinator/Grpc/Uncovered.antt =====
-- What becomes of a job that was submitted over gRPC and cancelled over REST.
use neuralmesh.Coordinator.Grpc
use neuralmesh.Coordinator.Jobs
use neuralmesh.Common.{
  inr, some, ◌∙◌, ◌≡◌, List, ◌∷◌, none, refl, [], Option, ap, inl, false, Option-cases, eqb_refl,
}
use neuralmesh.Coordinator.Grpc.{JobSubmitRequest, JobRequirements, submitted_job}
use neuralmesh.Coordinator.Jobs.{locked_amount, locked_for}
use neuralmesh.Coordinator.Jobs.Cancelling.{cancel_job-wipes}
use neuralmesh.Coordinator.Rows.{Escrow, Credit}
use neuralmesh.Coordinator.Store.{Conn, ok}
use neuralmesh.Database.{scan, RowId, scan_ids}
use neuralmesh.Float.{Float}

module _ {R : Float} where
  no_locked :
      (k : RowId) (row : RowId → Option (Escrow R)) (ks : List RowId)
      → ((i : RowId) (e : Escrow R) → row i ≡ some e → locked_for k e ≡ false)
      → scan_ids (locked_for k) row ks ≡ []
  unfolding scan_ids
  no_locked k row [] none_locked = refl
  no_locked k row (i ∷ ks) none_locked = elim (Option-cases (row i)) [
    | inl missing ↦ rw missing (no_locked k row ks none_locked)
    | inr (e, there) ↦ rw (there, none_locked i e there) (no_locked k row ks none_locked)
  ]

  -- With no fault, a job that is submitted over gRPC is queued without any amount being locked for it,
  -- and when its consumer cancels it over REST, the available balance becomes NULL and all that the
  -- consumer has in escrow, for other jobs too, becomes 0. The job's id is new: no job and no locked
  -- escrow has it; the consumer has an account.
  pub submit_job-cancel_job :
      (req : JobSubmitRequest R) (reqs : JobRequirements R) (job_id : RowId) (c : Conn R)
      (cr : Credit R)
      → c.faults ≡ []
      → req.requirements ≡ some reqs
      → c.store.jobs.row job_id ≡ none
      → ((k : RowId) (e : Escrow R) → c.store.escrows.row k ≡ some e → locked_for job_id e ≡ false)
      → c.store.credits.row req.consumer_id ≡ some cr
      → let submitted = Grpc.submit_job req job_id c in
        (submitted.0 ≡ ok job_id)
        × (submitted.1.store.jobs.row job_id ≡ some (submitted_job req reqs job_id))
        × (submitted.1.store.credits ≡ c.store.credits)
        × (submitted.1.store.escrows ≡ c.store.escrows)
        × ((Jobs.cancel_job job_id submitted.1).1.store.credits.row req.consumer_id
            ≡ some (record cr { available_nmc = none; escrowed_nmc = some (R.lit 0 0) }))
  unfolding Grpc.submit_job locked_amount scan
  submit_job-cancel_job req reqs job_id c cr f needs fresh none_locked has =
      let submitted = (Grpc.submit_job req job_id c).1 in
      let calm : submitted.faults ≡ [] = rw (needs, f, fresh) refl in
      let row : submitted.store.jobs.row job_id ≡ some (submitted_job req reqs job_id) =
        rw (needs, f, fresh, eqb_refl job_id) refl in
      let escrows : submitted.store.escrows ≡ c.store.escrows = rw (needs, f, fresh) refl in
      let credits : submitted.store.credits ≡ c.store.credits = rw (needs, f, fresh) refl in
      let nothing : locked_amount job_id submitted.store ≡ none =
        rw (escrows, no_locked job_id (c.store.escrows.row) (c.store.escrows.ids) none_locked)
          refl in
      (
        rw (needs, f, fresh) refl,
        row,
        credits,
        escrows,
        cancel_job-wipes job_id submitted (submitted_job req reqs job_id) cr calm row refl nothing
            (ap (λ cs. cs.row req.consumer_id) credits ∙ has),
      )
