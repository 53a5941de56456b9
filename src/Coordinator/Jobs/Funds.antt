-- ===== src/Coordinator/Jobs/Funds.antt =====
-- What a submission does to the accounts, whatever statements fail.
use mathlib.Core.Option
use mathlib.Core.Option.{some-injective}
use neuralmesh.Common.{
  inl, arith, none, Option, some, inr, ◌≡◌, subst, sym, refl, false, eqb_refl, ◌∙◌, ◌⊎◌, ap, ◌≢◌,
  ne_symm, eqb_ne,
}
use neuralmesh.Coordinator.Jobs.{
  SubmitJobBody, available_of, hourly_cost, lock_credit, submit_job, insert_job, new_job, Submitted,
}
use neuralmesh.Coordinator.Leading.{
  Leads, then-Leads, query-Leads, exec-Leads, pure-Leads, fail_if-Leads, Ends,
}
use neuralmesh.Coordinator.Rows.{Credit, Store, Transaction, Escrow, Job, locked, queued}
use neuralmesh.Coordinator.Store.{
  Conn, err, on_credits, insert_transaction, insert_escrow, ok, insert_for, Reply,
}
use neuralmesh.Database.{update_key, RowId, Table, insert_row, add_row}
use neuralmesh.Float.{Float}

add_row-added :
    {A : Type 0} (k : RowId) (a : A) (o : Option A) (t u : Table A)
    → add_row k a o t ≡ some u
    → u.row k ≡ some a
add_row-added k a none t u e =
    subst (λ z. z.row k ≡ some a) (some-injective _ _ e) (rw (eqb_refl k) refl)
add_row-added k a (some b) t u e = absurd (ground arith)

map-some :
    {A B : Type 0} (f : A → B) (o : Option A) {b : B}
    → Option.map f o ≡ some b
    → (a : A) × (o ≡ some a) × (f a ≡ b)
map-some f none e = absurd (ground arith)
map-some f (some a) e = (a, refl, some-injective _ _ e)

row_added :
    {A : Type 0} (k : RowId) (a : A) (t u : Table A) → insert_row k a t ≡ some u → u.row k ≡ some a
row_added k a t u e = add_row-added k a (t.row k) t u e

module _ {R : Float} (body : SubmitJobBody R) (job_id escrow_id tx_id : RowId)
    (before : Store R) where
  abbrev cost : R.F
  cost = hourly_cost R body.max_price_per_hour body.max_duration_secs

  abbrev had : R.F
  had = available_of R (before.credits.row body.account_id)

  abbrev IsSame : Store R → Type 0
  IsSame s = s ≡ before

  abbrev IsEnough : Store R → Type 0
  IsEnough s = (s ≡ before) × (R.lt had cost ≡ false)

  -- The job is in its row, and nothing is lock-IsTaken from any account.
  abbrev IsInserted : Store R → Type 0
  IsInserted s =
      (s.credits ≡ before.credits)
      × (s.escrows ≡ before.escrows)
      × (s.jobs.row job_id ≡ some (new_job body job_id))
      × (R.lt had cost ≡ false)

  abbrev IsTaken : Store R → Type 0
  IsTaken s =
      (s.credits ≡ update_key body.account_id (lock_credit cost) before.credits)
      × (s.jobs.row job_id ≡ some (new_job body job_id))
      × (R.lt had cost ≡ false)

  abbrev lock_row : Escrow R
  lock_row = record {
    escrow_id = escrow_id;
    job_id = job_id;
    consumer_id = body.account_id;
    provider_id = none;
    locked_nmc = cost;
    state = locked;
    settled_at = none;
  }

  abbrev IsRecorded : Store R → Type 0
  IsRecorded s = IsTaken s × (s.escrows.row escrow_id ≡ some lock_row)

  abbrev IsStopped : Store R → Type 0
  IsStopped s = ((s.credits ≡ before.credits) × (s.escrows ≡ before.escrows)) ⊎ IsTaken s

  insert_job-IsInserted :
      (s t : Store R) → IsEnough s → insert_job (new_job body job_id) s ≡ some t → IsInserted t
  unfolding new_job
  insert_job-IsInserted s t (same, enough) e =
      let r = map-some _ (insert_row job_id (new_job body job_id) s.jobs) e in
      (
        ap (λ z. z.credits) (sym r.2) ∙ ap (λ z. z.credits) same,
        ap (λ z. z.escrows) (sym r.2) ∙ ap (λ z. z.escrows) same,
        ap (λ z. z.jobs.row job_id) (sym r.2)
            ∙ row_added job_id (new_job body job_id) s.jobs r.0 r.1,
        enough,
      )

  lock-IsTaken :
      (s t : Store R)
      → IsInserted s
      → on_credits (update_key body.account_id (lock_credit cost)) s ≡ some t
      → IsTaken t
  lock-IsTaken s t (same, kept, job, enough) e =
      let made = some-injective _ _ e in
      (
        ap (λ z. z.credits) (sym made) ∙ ap (update_key body.account_id (lock_credit cost)) same,
        ap (λ z. z.jobs.row job_id) (sym made) ∙ job,
        enough,
      )

  insert_escrow-IsRecorded :
      (s t : Store R) → IsTaken s → insert_escrow lock_row s ≡ some t → IsRecorded t
  insert_escrow-IsRecorded s t (debit, job, enough) e =
      let r =
        map-some _ (insert_row escrow_id lock_row s.escrows)
          (subst (λ o. insert_for o lock_row s ≡ some t) job e) in
      (
        (
          ap (λ z. z.credits) (sym r.2) ∙ debit,
          ap (λ z. z.jobs.row job_id) (sym r.2) ∙ job,
          enough,
        ),
        ap (λ z. z.escrows.row escrow_id) (sym r.2)
            ∙ row_added escrow_id lock_row s.escrows r.0 r.1,
      )

  insert_transaction-IsRecorded :
      (w : Transaction R) (s t : Store R)
      → IsRecorded s
      → insert_transaction w s ≡ some t
      → IsRecorded t
  insert_transaction-IsRecorded w s t h e =
      let same : t.credits ≡ s.credits = ground arith in
      let held : t.escrows ≡ s.escrows = ground arith in
      let jobs : t.jobs ≡ s.jobs = ground arith in
      (
        (same ∙ h.0.0, ap (λ z. z.row job_id) jobs ∙ h.0.1, h.0.2),
        ap (λ z. z.row escrow_id) held ∙ h.1,
      )

  same-IsStopped : (s : Store R) → IsSame s → IsStopped s
  same-IsStopped s e = inl (ap (λ z. z.credits) e, ap (λ z. z.escrows) e)

  fail_if-IsEnough :
      (credit : Option (Credit R)) (s : Store R)
      → IsSame s × (s.credits.row body.account_id ≡ credit)
      → R.lt (available_of R credit) cost ≡ false
      → IsEnough s
  fail_if-IsEnough credit s (same, read) few = (
    same,
    subst (λ o. R.lt (available_of R o) cost ≡ false)
        (sym read ∙ ap (λ z. z.credits.row body.account_id) same) few,
  )

  submit_job-Leads : Leads IsStopped IsSame IsRecorded (submit_job body job_id escrow_id tx_id)
  unfolding submit_job
  submit_job-Leads =
      query-Leads IsStopped (λ s. s.credits.row body.account_id) same-IsStopped
        (λ credit.
          then-Leads IsStopped {P = λ s. IsSame s × (s.credits.row body.account_id ≡ credit)}
            {Q = IsEnough}
            (fail_if-Leads IsStopped _ _ (λ s h. same-IsStopped s h.0) (fail_if-IsEnough credit))
            (then-Leads IsStopped {P = IsEnough}
              (exec-Leads IsStopped (λ s h. same-IsStopped s h.0) insert_job-IsInserted)
              (then-Leads IsStopped {P = IsInserted}
                (exec-Leads IsStopped (λ s h. inl (h.0, h.1)) lock-IsTaken)
                (then-Leads IsStopped {P = IsTaken}
                  (exec-Leads IsStopped (λ s h. inr h) insert_escrow-IsRecorded)
                  (then-Leads IsStopped {P = IsRecorded}
                    (exec-Leads IsStopped (λ s h. inr h.0) (λ s. insert_transaction-IsRecorded _ s))
                    (pure-Leads IsStopped))))))

  by_answer :
      {A : Type 0} (r : Reply A) (s : Store R)
      → Ends IsStopped IsRecorded r s
      → (((s.credits ≡ before.credits) × (s.escrows ≡ before.escrows)) × ((a : A) → r ≢ ok a))
        ⊎ (IsTaken s × ((a : A) → r ≡ ok a → s.escrows.row escrow_id ≡ some lock_row))
  by_answer (ok a) s h = inr (h.0, λ b e. h.1)
  by_answer (err e) s (inl h) = inl (h, λ a q. ground (arith, q))
  by_answer (err e) s (inr h) = inr (h, λ a q. ground (arith, q))

module _ {R : Float} where
  -- Whatever statements fail, a submission ends in one of two ways. Either it answers with an error and all
  -- accounts and escrows are as before; or the consumer had no less available than the price for the whole
  -- duration, and once, and from its account alone, that price has been taken from what is available and
  -- put on what is in escrow, and the job stands queued in its name. In the second way an answer that is no
  -- error means that the escrow of the job is recorded with that price, too.
  pub submit_job-locks :
      (body : SubmitJobBody R) (job_id escrow_id tx_id : RowId) (c : Conn R)
      → let cost =
          R.mul body.max_price_per_hour (R.div (R.of_int body.max_duration_secs) (R.lit 3600 0)) in
        let after = submit_job body job_id escrow_id tx_id c in
        (((after.1.store.credits ≡ c.store.credits) × (after.1.store.escrows ≡ c.store.escrows))
          × ((a : Submitted R) → after.0 ≢ ok a))
        ⊎ ((R.lt (available_of R (c.store.credits.row body.account_id)) cost ≡ false)
            × ((k : RowId)
                → k ≢ body.account_id
                → after.1.store.credits.row k ≡ c.store.credits.row k)
            × ((cr : Credit R) (a e : R.F)
                → c.store.credits.row body.account_id ≡ some cr
                → cr.available_nmc ≡ some a
                → cr.escrowed_nmc ≡ some e
                → after.1.store.credits.row body.account_id
                  ≡ some (record cr {
                    available_nmc = some (R.sub a cost);
                    escrowed_nmc = some (R.add e cost);
                  }))
            × ((j : Job R) × (after.1.store.jobs.row job_id ≡ some j)
                × (j.state ≡ queued)
                × (j.consumer_id ≡ body.account_id))
            × ((a : Submitted R)
                → after.0 ≡ ok a
                → after.1.store.escrows.row escrow_id
                  ≡ some (record {
                    escrow_id = escrow_id;
                    job_id = job_id;
                    consumer_id = body.account_id;
                    provider_id = none;
                    locked_nmc = cost;
                    state = locked;
                    settled_at = none;
                  })))
  unfolding new_job
  submit_job-locks body job_id escrow_id tx_id c =
      let after = submit_job body job_id escrow_id tx_id c in
      let ends = (submit_job-Leads body job_id escrow_id tx_id c.store).run c refl in
      elim (by_answer body job_id escrow_id tx_id c.store after.0 after.1.store ends) [
        | inl stopped ↦ inl stopped
        | inr (debit, booked) ↦ inr (
          debit.2,
          λ k ne. ap (λ t. t.row k) debit.0 ∙ (rw (eqb_ne body.account_id k (ne_symm ne)) refl),
          λ cr a e row free held.
              ap (λ t. t.row body.account_id) debit.0
              ∙ (rw (eqb_refl body.account_id, row, free, held) refl),
          (new_job body job_id, debit.1, refl, refl),
          booked,
        )
      ]
