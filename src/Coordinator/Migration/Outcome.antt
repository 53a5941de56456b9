-- ===== src/Coordinator/Migration/Outcome.antt =====
-- The job of a provider that fell silent: queued again, or failed and refunded.
use Prim.Native.String.{String}
use neuralmesh.Common.{
  [], some, arith, ◌⊎◌, ◌<◌, true, ◌≤◌, ◌≡◌, none, ℕ, ◌&&◌, inl, refl, inr, Option, lt→ltb,
  Bool-cases, ltb, ◌∙◌, sym, false, eqb_refl,
}
use neuralmesh.Coordinator.Jobs.{locked_for, release_row}
use neuralmesh.Coordinator.Keeping.{
  exec-Keeps, get_now-Keeps, ignore-Keeps, Keeps, then-Keeps, pure-Keeps, bind-Keeps, query-Keeps,
}
use neuralmesh.Coordinator.Migration.{
  refund_consumer_escrow, migrate_or_fail_job, migrate, refund_found, requeue, give_up,
  refund_escrow, penalty, give_back, fail_disconnected, in_progress, is_some, depositor,
}
use neuralmesh.Coordinator.Rows.{
  queued, Escrow, Job, Provider, Credit, Store, Transaction, escrow_release, by_id, released,
  failed,
}
use neuralmesh.Coordinator.Store.{
  ok, Conn, on_escrows, on_jobs, insert_transaction, on_credits, on_providers, bind-ends, query,
  greatest_null, sub_null, add_null,
}
use neuralmesh.Database.{RowId, scan, first, set_row, Table, update_key, upsert_row}
use neuralmesh.Float.{Float}

module _ {R : Float} where
  -- With no fault, a job in progress with a checkpoint and fewer than three restores is queued
  -- again without a provider; the credits, the escrows and the providers stay as they are.
  pub migrate-requeues :
      (job_id provider_id tx_id : RowId) (c : Conn R) (j : Job R)
      → c.faults ≡ []
      → c.store.jobs.row job_id ≡ some j
      → in_progress j.state ≡ true
      → is_some j.checkpoint_url ≡ true
      → j.restore_attempts < 3
      → let after = migrate_or_fail_job job_id provider_id tx_id c in
        (after.1.store.jobs.row job_id
          ≡ some (record j {
            state = queued;
            provider_id = none;
            failure_reason = some "provider_disconnect_checkpoint_restore";
          }))
        × (after.1.store.credits ≡ c.store.credits)
        × (after.1.store.escrows ≡ c.store.escrows)
        × (after.1.store.providers ≡ c.store.providers)
  unfolding migrate_or_fail_job migrate
  migrate-requeues job_id provider_id tx_id c j f row going there few =
      rw (f, row, going, there, lt→ltb j.restore_attempts 3 few, eqb_refl job_id, row)
        (refl, refl, refl, refl)

  module _ (job_id : RowId) (Allowed : Type 0) where
    -- If the job is queued, it was allowed to be.
    abbrev IsAllowed : Store R → Type 0
    IsAllowed s = (j : Job R) → s.jobs.row job_id ≡ some j → j.state ≡ queued → Allowed

    same_jobs : (s t : Store R) → IsAllowed s → t.jobs ≡ s.jobs → IsAllowed t
    same_jobs s t h same j row q = h j (cc (row, same)) q

    on_escrows-IsAllowed :
        (f : Table (Escrow R) → Table (Escrow R)) (s t : Store R)
        → IsAllowed s
        → on_escrows f s ≡ some t
        → IsAllowed t
    on_escrows-IsAllowed f s t h k = same_jobs s t h (ground arith)

    on_credits-IsAllowed :
        (f : Table (Credit R) → Table (Credit R)) (s t : Store R)
        → IsAllowed s
        → on_credits f s ≡ some t
        → IsAllowed t
    on_credits-IsAllowed f s t h k = same_jobs s t h (ground arith)

    on_providers-IsAllowed :
        (f : Table (Provider R) → Table (Provider R)) (s t : Store R)
        → IsAllowed s
        → on_providers f s ≡ some t
        → IsAllowed t
    on_providers-IsAllowed f s t h k = same_jobs s t h (ground arith)

    insert_transaction-IsAllowed :
        (w : Transaction R) (s t : Store R)
        → IsAllowed s
        → insert_transaction w s ≡ some t
        → IsAllowed t
    insert_transaction-IsAllowed w s t h k = same_jobs s t h (ground arith)

    give_up-IsAllowed :
        (now : ℕ) (reason : String) (s t : Store R)
        → IsAllowed s
        → on_jobs (update_key job_id (give_up now reason)) s ≡ some t
        → IsAllowed t
    give_up-IsAllowed now reason s t h k j row q =
        let after : t.jobs.row job_id ≡ set_row (give_up now reason) (s.jobs.row job_id) =
          ground arith in
        absurd (never_queued (s.jobs.row job_id) j (sym after ∙ row) q)
      where
        never_queued :
            (o : Option (Job R)) (j : Job R)
            → set_row (give_up now reason) o ≡ some j
            → ¬ (j.state ≡ queued)
        never_queued none j e q = ground arith
        never_queued (some i) j e q = ground arith

    requeue-IsAllowed :
        (s t : Store R) → Allowed → on_jobs (update_key job_id requeue) s ≡ some t → IsAllowed t
    requeue-IsAllowed s t allowed k j row q = allowed

    refund_found-IsAllowed :
        (tx_id : RowId) (o : Option (Escrow R)) → Keeps IsAllowed (refund_found job_id tx_id o)
    unfolding refund_found refund_escrow
    refund_found-IsAllowed tx_id none = pure-Keeps IsAllowed
    refund_found-IsAllowed tx_id (some e) = bind-Keeps IsAllowed (get_now-Keeps IsAllowed) (λ now.
        then-Keeps IsAllowed
          (exec-Keeps IsAllowed (on_escrows-IsAllowed (update_key e.escrow_id (release_row now))))
          (then-Keeps IsAllowed
            (exec-Keeps IsAllowed (
              on_credits-IsAllowed (
                upsert_row e.consumer_id (depositor e.consumer_id e.locked_nmc)
                  (give_back e.locked_nmc))))
            (exec-Keeps IsAllowed (
              insert_transaction-IsAllowed (record {
                tx_id = tx_id;
                account_id = e.consumer_id;
                tx_type = escrow_release;
                amount_nmc = e.locked_nmc;
                balance_after = none;
                reference = some (by_id job_id);
              })))))

    fail_disconnected-IsAllowed :
        (provider_id tx_id : RowId) (reason : String)
        → Keeps IsAllowed (fail_disconnected job_id provider_id tx_id reason)
    unfolding fail_disconnected refund_consumer_escrow
    fail_disconnected-IsAllowed provider_id tx_id reason =
        bind-Keeps IsAllowed (get_now-Keeps IsAllowed) (λ now.
          then-Keeps IsAllowed (exec-Keeps IsAllowed (give_up-IsAllowed now reason)) (
            then-Keeps IsAllowed
              (ignore-Keeps IsAllowed (
                bind-Keeps IsAllowed (query-Keeps IsAllowed _)
                  (λ o. refund_found-IsAllowed tx_id o)))
              (ignore-Keeps IsAllowed (
                exec-Keeps IsAllowed (
                  on_providers-IsAllowed (
                    update_key provider_id
                      (λ p. record p { trust_score = penalty R p.trust_score })))))))

    migrate-IsAllowed :
        (provider_id tx_id : RowId) (o : Option (Job R))
        → ((j : Job R)
            → o ≡ some j
            → in_progress j.state ≡ true
            → is_some j.checkpoint_url && ltb j.restore_attempts 3 ≡ true
            → Allowed)
        → Keeps IsAllowed (migrate job_id provider_id tx_id o)
    unfolding migrate
    migrate-IsAllowed provider_id tx_id none allowed = pure-Keeps IsAllowed
    migrate-IsAllowed provider_id tx_id (some j) allowed = elim (Bool-cases (in_progress j.state)) [
      | inr idle ↦ rw idle (pure-Keeps IsAllowed)
      | inl going ↦ elim (Bool-cases (is_some j.checkpoint_url && ltb j.restore_attempts 3)) [
        | inl fit ↦
            rw (going, fit)
              (exec-Keeps IsAllowed (λ s t h k. requeue-IsAllowed s t (allowed j refl going fit) k))
        | inr unfit ↦ rw (going, unfit) (fail_disconnected-IsAllowed provider_id tx_id _)
      ]
    ]

  queued_of : (j i : Job R) → some j ≡ some i → i.state ≡ queued → j.state ≡ queued
  queued_of j i e q = ground arith

  allowed_of :
      (j i : Job R)
      → some j ≡ some i
      → in_progress i.state ≡ true
      → is_some i.checkpoint_url && ltb i.restore_attempts 3 ≡ true
      → (j.state ≡ queued)
        ⊎ ((in_progress j.state ≡ true)
            × (is_some j.checkpoint_url ≡ true)
            × (j.restore_attempts < 3))
  allowed_of j i e going fit = inr (ground arith, ground arith, ground arith)

  read_row :
      (job_id : RowId) (c : Conn R) (o : Option (Job R))
      → (query (λ s. s.jobs.row job_id) c).0 ≡ ok o
      → o ≡ c.store.jobs.row job_id
  read_row job_id c o e = ground arith

  -- Whatever statements fail, only a job that had a checkpoint and fewer than three restores, and was in
  -- progress, is queued afterwards, unless it was queued before.
  pub migrate-queued :
      (job_id provider_id tx_id : RowId) (c : Conn R) (j j' : Job R)
      → c.store.jobs.row job_id ≡ some j
      → (migrate_or_fail_job job_id provider_id tx_id c).1.store.jobs.row job_id ≡ some j'
      → j'.state ≡ queued
      → (j.state ≡ queued)
        ⊎ ((in_progress j.state ≡ true)
            × (is_some j.checkpoint_url ≡ true)
            × (j.restore_attempts < 3))
  unfolding migrate_or_fail_job
  migrate-queued job_id provider_id tx_id c j j' row after q =
      let Allowed =
        (j.state ≡ queued)
        ⊎ ((in_progress j.state ≡ true)
            × (is_some j.checkpoint_url ≡ true)
            × (j.restore_attempts < 3)) in
      let P = IsAllowed job_id Allowed in
      let base : P c.store = λ i there qd. inl (queued_of j i (sym row ∙ there) qd) in
      let read = query-Keeps P (λ s. s.jobs.row job_id) in
      bind-ends (λ d. P d.store) (query (λ s. s.jobs.row job_id)) (migrate job_id provider_id tx_id)
        c (read.run c base)
        (λ o e.
          (migrate-IsAllowed job_id Allowed provider_id tx_id o (λ i is going fit.
              allowed_of j i (sym row ∙ sym (read_row job_id c o e) ∙ is) going fit)).run
            _ (read.run c base))
        j' after q

  -- With no fault, a job in progress that has no checkpoint, or has been restored three times,
  -- ends as failed, and what its escrow has locked is added to what the consumer has
  -- available and taken from what it has in escrow, down to 0; that escrow is released. The escrow is the first locked one of the job and stands under its id, the consumer has an
  -- account, and the id of the transaction is not taken.
  pub migrate-refunds :
      (job_id provider_id tx_id : RowId) (c : Conn R) (j : Job R) (e : Escrow R) (cr : Credit R)
      → c.faults ≡ []
      → c.store.jobs.row job_id ≡ some j
      → in_progress j.state ≡ true
      → (j.checkpoint_url ≡ none) ⊎ (3 ≤ j.restore_attempts)
      → first (scan (locked_for job_id) c.store.escrows) ≡ some e
      → c.store.escrows.row e.escrow_id ≡ some e
      → c.store.credits.row e.consumer_id ≡ some cr
      → c.store.transactions.row tx_id ≡ none
      → let after = migrate_or_fail_job job_id provider_id tx_id c in
        (after.0 ≡ ok tt)
        × ((reason : String) × (after.1.store.jobs.row job_id
              ≡ some (record j {
                state = failed;
                completed_at = some c.now;
                failure_reason = some reason;
              })))
        × (after.1.store.credits.row e.consumer_id
            ≡ some (record cr {
              available_nmc = add_null R cr.available_nmc (some e.locked_nmc);
              escrowed_nmc =
                  greatest_null R (R.lit 0 0) (sub_null R cr.escrowed_nmc (some e.locked_nmc));
            }))
        × (after.1.store.escrows.row e.escrow_id
            ≡ some (record e { state = released; settled_at = some c.now }))
  unfolding migrate_or_fail_job migrate fail_disconnected refund_consumer_escrow refund_found
      refund_escrow scan
  migrate-refunds job_id provider_id tx_id c j e cr f row going spent found kept credit fresh =
      let unfit : is_some j.checkpoint_url && ltb j.restore_attempts 3 ≡ false = ground arith in
      rw
        (
          f,
          row,
          going,
          unfit,
          found,
          credit,
          fresh,
          eqb_refl job_id,
          eqb_refl e.escrow_id,
          eqb_refl e.consumer_id,
          row,
          kept,
          credit,
        )
        (refl, (_, refl), refl, refl)
