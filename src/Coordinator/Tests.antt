-- ===== src/Coordinator/Tests.antt =====
-- The coordinator's handlers at small databases.
use Prim.Native.String.{String}
use neuralmesh.Common.{arith, false, true, [], some, ◌∷◌, none, ◌≡◌, refl, inl, ◌⊎◌, ◌≢◌}
use neuralmesh.Common.Int.{◌*ℤ◌, ◌+ℤ◌, ◌-ℤ◌, ℤ}
use neuralmesh.Coordinator.Jobs.{
  submit_job, cancel_job, cancelled_job, locked_amount, release_row, locked_for, Submitted,
  available_of,
}
use neuralmesh.Coordinator.Jobs.Cancelling.{cancel_job-refunds}
use neuralmesh.Coordinator.Jobs.Funds.{submit_job-locks}
use neuralmesh.Coordinator.Matching.{
  score_of, assign_found, insert_by_price, best_of, queued_jobs, max_by, run_auction_cycle,
  assign_job, is_candidate, find_best_provider, sort_by_price, candidates, simple_score, auction,
}
use neuralmesh.Coordinator.Matching.Cycle.{run_auction_cycle-busy, IsKeyed}
use neuralmesh.Coordinator.Migration.{
  evict_stale_providers, check_stale_providers, migrate_or_fail_job,
}
use neuralmesh.Coordinator.Migration.Eviction.{evict-check_stale}
use neuralmesh.Coordinator.Migration.Outcome.{migrate-refunds}
use neuralmesh.Coordinator.Rows.{
  complete, available, Job, cancelled, running, Provider, leased, Escrow, queued, released, failed,
  locked, Credit,
}
use neuralmesh.Coordinator.Sample.{
  fixed_point, no_rows, one_row, credit_row, provider_row, connected, escrow_row, job_row, two_rows,
  nmc, under_way, worker, working, job_order, empty,
}
use neuralmesh.Coordinator.Store.{Conn, ok}
use neuralmesh.Database.{scan_ids, scan, RowId}

-- The third statement of the submission, which takes the amount, succeeds; the next one fails.
abbrev faulty : Conn fixed_point
faulty = record empty { faults = false ∷ (false ∷ (false ∷ (true ∷ []))) }

submit_takes : (submit_job job_order 1 2 3 faulty).1.store.credits.row 7 ≡ some (credit_row 7 40 20)
unfolding submit_job ◌+ℤ◌ ◌-ℤ◌ ◌*ℤ◌
submit_takes = refl

submit_job-locks_example :
    let cost =
      fixed_point.mul job_order.max_price_per_hour (
        fixed_point.div
          (fixed_point.of_int job_order.max_duration_secs)
          (fixed_point.lit 3600 0)) in
    let after = submit_job job_order 1 2 3 faulty in
    (((after.1.store.credits ≡ faulty.store.credits)
        × (after.1.store.escrows ≡ faulty.store.escrows))
      × ((a : Submitted fixed_point) → after.0 ≢ ok a))
    ⊎ ((fixed_point.lt
            (available_of fixed_point (faulty.store.credits.row job_order.account_id))
            cost
          ≡ false)
        × ((k : RowId)
            → k ≢ job_order.account_id
            → after.1.store.credits.row k ≡ faulty.store.credits.row k)
        × ((cr : Credit fixed_point) (a e : ℤ)
            → faulty.store.credits.row job_order.account_id ≡ some cr
            → cr.available_nmc ≡ some a
            → cr.escrowed_nmc ≡ some e
            → after.1.store.credits.row job_order.account_id
              ≡ some (record cr {
                available_nmc = some (fixed_point.sub a cost);
                escrowed_nmc = some (fixed_point.add e cost);
              }))
        × ((j : Job fixed_point) × (after.1.store.jobs.row 1 ≡ some j)
            × (j.state ≡ queued)
            × (j.consumer_id ≡ job_order.account_id))
        × ((a : Submitted fixed_point)
            → after.0 ≡ ok a
            → after.1.store.escrows.row 2
              ≡ some (record {
                escrow_id = 2;
                job_id = 1;
                consumer_id = job_order.account_id;
                provider_id = none;
                locked_nmc = cost;
                state = locked;
                settled_at = none;
              })))
submit_job-locks_example = submit_job-locks job_order 1 2 3 faulty

abbrev ended : Conn fixed_point
ended = connected (one_row 1 (job_row 1 complete none none 0)) no_rows no_rows

cancel_job-refunds_example :
    let after = cancel_job 1 under_way in
    (after.0 ≡ ok (cancelled_job 1))
    × (after.1.store.jobs.row 1
        ≡ some (record working { state = cancelled; completed_at = some 1000 }))
    × (after.1.store.credits.row 7 ≡ some (credit_row 7 60 0))
    × ((k : RowId) (p : Provider fixed_point)
        → under_way.store.providers.row k ≡ some p
        → p.active_job_id ≡ some 1
        → after.1.store.providers.row k
          ≡ some (record p { state = available; active_job_id = none }))
    × ((k : RowId) (w : Escrow fixed_point)
        → under_way.store.escrows.row k ≡ some w
        → locked_for 1 w ≡ true
        → after.1.store.escrows.row k ≡ some (release_row 1000 w))
unfolding locked_amount scan scan_ids ◌+ℤ◌ ◌-ℤ◌
cancel_job-refunds_example =
    cancel_job-refunds 1 under_way working (credit_row 7 50 10) (nmc 10) (nmc 50) (nmc 10) refl refl
      refl refl refl refl refl

abbrev unfunded : Conn fixed_point
unfunded = connected (one_row 1 working) no_rows no_rows

-- One waiting job, one provider that is busy and one that is free.
abbrev free_worker : Provider fixed_point
free_worker = provider_row 6 available 3 none

abbrev auctioned : Conn fixed_point
auctioned =
    connected (one_row 1 (job_row 1 queued none none 0)) (two_rows 5 worker 6 free_worker) no_rows

auctioned-IsKeyed : IsKeyed auctioned.store
auctioned-IsKeyed k p h = ground arith

auction_assigns :
    (run_auction_cycle auctioned).1.store.providers.row 6
    ≡ some (record free_worker { state = leased; active_job_id = some 1 })
unfolding run_auction_cycle queued_jobs auction find_best_provider assign_found assign_job
    candidates score_of best_of max_by sort_by_price insert_by_price is_candidate simple_score scan
    scan_ids ◌+ℤ◌ ◌-ℤ◌ ◌*ℤ◌
auction_assigns = refl

run_auction_cycle-busy_example : (run_auction_cycle auctioned).1.store.providers.row 5 ≡ some worker
run_auction_cycle-busy_example =
    run_auction_cycle-busy auctioned 5 worker auctioned-IsKeyed refl refl

-- A provider that has been silent for 200 seconds.
abbrev silent : Conn fixed_point
silent =
    connected (one_row 1 working) (one_row 5 (record worker { last_seen = some 800 }))
      (one_row 2 (escrow_row 2 1 10))

evict-check_stale_example :
    (check_stale_providers
      (λ n. n)
      (record (evict_stale_providers silent).1 { now = 1030 })).1.store
    ≡ (evict_stale_providers silent).1.store
evict-check_stale_example = evict-check_stale (λ n. n) silent 1030 refl (omega arith)

abbrev restorable : Job fixed_point
restorable = job_row 1 running (some 5) (some "file:///ckpt") 2

abbrev with_checkpoint : Conn fixed_point
with_checkpoint = connected (one_row 1 restorable) (one_row 5 worker) no_rows

migrate-refunds_example :
    let after = migrate_or_fail_job 1 5 9 under_way in
    (after.0 ≡ ok tt)
    × ((reason : String) × (after.1.store.jobs.row 1
          ≡ some (record working {
            state = failed;
            completed_at = some 1000;
            failure_reason = some reason;
          })))
    × (after.1.store.credits.row 7 ≡ some (credit_row 7 60 0))
    × (after.1.store.escrows.row 2
        ≡ some (record (escrow_row 2 1 10) { state = released; settled_at = some 1000 }))
unfolding scan scan_ids ◌+ℤ◌ ◌-ℤ◌
migrate-refunds_example =
    migrate-refunds 1 5 9 under_way working (escrow_row 2 1 10) (credit_row 7 50 10) refl refl refl
      (inl refl) refl refl refl refl
