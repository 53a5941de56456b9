-- ===== src/Ledger/Payment.antt =====
-- A lock and its release together: who is credited what.
use neuralmesh.Common.{some, ◌≢◌, true, refl, none, [], ◌≡◌, eqb_refl, ne_symm, eqb_ne, ◌∙◌}
use neuralmesh.Common.Int.{pos}
use neuralmesh.Coordinator.Jobs.{lock_credit, release_row}
use neuralmesh.Coordinator.Rows.{Job, Credit, released, Escrow}
use neuralmesh.Coordinator.Store.{Conn, ok, ◌>>◌}
use neuralmesh.Database.{RowId}
use neuralmesh.Float.{Float}
use neuralmesh.Ledger.{
  recorded, has_available, escrow_created, new_escrow, lock_escrow, EscrowLockBody,
  EscrowReleaseBody, release_escrow,
}
use neuralmesh.Ledger.Release.{release_escrow-pays, release_escrow-others}

module _ {R : Float} where
  -- With no fault, a lock of no more than the consumer has available, under an id that is not taken and
  -- for a job that exists, moves the amount into escrow and records the escrow; the jobs stay.
  lock_escrow-eq-ok :
      (body : EscrowLockBody R) (escrow_id : RowId) (c : Conn R) (consumer : Credit R) (a : R.F)
      (j : Job R)
      → c.faults ≡ []
      → c.store.credits.row body.consumer_id ≡ some consumer
      → consumer.available_nmc ≡ some a
      → R.le body.amount_nmc a ≡ true
      → c.store.jobs.row body.job_id ≡ some j
      → c.store.escrows.row escrow_id ≡ none
      → let after = lock_escrow body escrow_id c in
        (after.0 ≡ ok (recorded escrow_id))
        × (after.1.faults ≡ [])
        × (after.1.store.escrows.row escrow_id ≡ some (new_escrow body escrow_id))
        × (after.1.store.credits.row body.consumer_id ≡ some (lock_credit body.amount_nmc consumer))
        × ((k : RowId) → k ≢ body.consumer_id → after.1.store.credits.row k ≡ c.store.credits.row k)
  unfolding lock_escrow escrow_created
  lock_escrow-eq-ok body escrow_id c consumer a j f row free enough job fresh =
      let has : has_available body.amount_nmc consumer ≡ true = rw free enough in
      (
        rw (f, row, has, job, fresh) refl,
        rw (f, row, has, job, fresh) refl,
        rw (f, row, has, job, fresh, eqb_refl escrow_id) refl,
        rw (f, row, has, job, fresh, eqb_refl body.consumer_id, row, has) refl,
        λ k ne. rw (f, row, has, job, fresh, eqb_ne body.consumer_id k (ne_symm ne)) refl,
      )

  -- With no fault, a lock and then its release split the amount that was locked: the cost is the hourly
  -- price for the runtime, but no more than that amount; the provider is credited the cost less 8% of it,
  -- and has it counted as earned; the consumer, from whom the lock took the amount, is given back what is
  -- locked beyond the cost, and the amount is taken off what it has in escrow again; the escrow is released;
  -- no other account changes, so that nobody is credited the fee that the answer reports. The lock takes
  -- no more than is available, its job exists and its id is not taken; the provider is another account, and
  -- the amounts that change are known.
  pub lock_escrow-release_escrow :
      (lock : EscrowLockBody R) (release : EscrowReleaseBody R) (c : Conn R) (p : RowId)
      (consumer worker : Credit R) (a held earned total : R.F) (j : Job R)
      → c.faults ≡ []
      → c.store.credits.row lock.consumer_id ≡ some consumer
      → consumer.available_nmc ≡ some a
      → consumer.escrowed_nmc ≡ some held
      → R.le lock.amount_nmc a ≡ true
      → c.store.jobs.row lock.job_id ≡ some j
      → c.store.escrows.row release.escrow_id ≡ none
      → lock.provider_id ≡ some p
      → p ≢ lock.consumer_id
      → c.store.credits.row p ≡ some worker
      → worker.available_nmc ≡ some earned
      → worker.total_earned_nmc ≡ some total
      → let m = lock.amount_nmc in
        let cost =
          R.min_f64
            (R.mul release.actual_price_per_hour
              (R.div (R.of_int (pos release.actual_runtime_s)) (R.lit 3600 0)))
            m in
        let fee = R.mul cost (R.lit 8 2) in
        let after = (lock_escrow lock release.escrow_id >> release_escrow release) c in
        (after.0
          ≡ ok (record {
            provider_credited = R.sub cost fee;
            consumer_refunded = R.sub m cost;
            platform_fee = fee;
          }))
        × (after.1.store.credits.row p
            ≡ some (record worker {
              available_nmc = some (R.add earned (R.sub cost fee));
              total_earned_nmc = some (R.add total (R.sub cost fee));
            }))
        × (after.1.store.credits.row lock.consumer_id
            ≡ some (record consumer {
              available_nmc = some (R.add (R.sub a m) (R.sub m cost));
              escrowed_nmc = some (R.sub (R.add held m) m);
            }))
        × ((k : RowId)
            → k ≢ p
            → k ≢ lock.consumer_id
            → after.1.store.credits.row k ≡ c.store.credits.row k)
        × ((e : Escrow R) × (after.1.store.escrows.row release.escrow_id ≡ some e)
            × (e.state ≡ released))
  lock_escrow-release_escrow lock release c p consumer worker a held earned total j f row free
        escrowed enough job fresh to ne has_p free_p earned_p =
      let escrow_id = release.escrow_id in
      let locked_c = (lock_escrow lock escrow_id c).1 in
      let made = lock_escrow-eq-ok lock escrow_id c consumer a j f row free enough job fresh in
      let debit = lock_credit lock.amount_nmc consumer in
      let worker_row = made.4 p ne ∙ has_p in
      let paid =
        release_escrow-pays release locked_c (new_escrow lock escrow_id) p debit worker made.1
          made.2 refl to (ne_symm ne) made.3 worker_row in
      (
        rw made.0 paid.0,
        rw (made.0, paid.2, free_p, earned_p) refl,
        rw (made.0, paid.1, free, escrowed) refl,
        λ k off_p off_c. rw made.0 (
            release_escrow-others release locked_c (new_escrow lock escrow_id) p worker k made.1
              made.2 refl to (ne_symm ne) worker_row off_p off_c
            ∙ made.4 k off_c),
        (release_row locked_c.now (new_escrow lock escrow_id), rw made.0 paid.3, refl),
      )
