-- ===== src/Coordinator/PaymentTests.antt =====
-- The coordinator's payments, logs and checkpoints at small databases.
use neuralmesh.Common.{false, arith, refl, some, [], ◌≡◌, none}
use neuralmesh.Common.Int.{pos, ◌-ℤ◌}
use neuralmesh.Coordinator.Checkpoints.{
  get_checkpoint, checkpoint_url_of, save_checkpoint, trim_end_slashes, CheckpointBody, latest,
}
use neuralmesh.Coordinator.Checkpoints.Restoring.{save_checkpoint-migrate}
use neuralmesh.Coordinator.Jobs.{available_column}
use neuralmesh.Coordinator.Logs.{get_job_logs, append_job_log}
use neuralmesh.Coordinator.Logs.Polling.{get_job_logs-append_job_log}
use neuralmesh.Coordinator.Migration.{migrate_or_fail_job}
use neuralmesh.Coordinator.Payments.{
  WithdrawBody, withdraw, invalid_address, check_withdrawal, StripeCreditBody, add_available,
  count_session, queued_as, stripe_credit,
}
use neuralmesh.Coordinator.Payments.Retry.{
  withdraw_twice, withdraw-overdraws, stripe_credit-credits_again,
}
use neuralmesh.Coordinator.Rows.{running, queued}
use neuralmesh.Coordinator.Sample.{
  job_row, nmc, no_rows, fixed_point, one_row, credit_row, connected,
}
use neuralmesh.Coordinator.Store.{Conn, ◌>>◌, ok, err, internal_error}
use neuralmesh.Database.{scan, scan_ids}

abbrev at_rest : Conn fixed_point
at_rest = connected (one_row 1 (job_row 1 running (some 5) none 0)) no_rows no_rows

abbrev stripe_body : StripeCreditBody fixed_point
stripe_body = record {
  account_id = 7;
  amount_nmc = nmc 5;
  stripe_session_id = 70;
  amount_myr = nmc 20;
}

-- An unset secret is matched by a request without a header.
stripe_credit-credits_again_example :
    let after = stripe_credit none none stripe_body 100 at_rest in
    let again = stripe_credit none none stripe_body 101 after.1 in
    let twice = add_available (nmc 5) (add_available (nmc 5) (credit_row 7 50 10)) in
    (after.0 ≡ err internal_error)
    × (after.1.store.credits.row 7 ≡ some (add_available (nmc 5) (credit_row 7 50 10)))
    × (after.1.store.deposits ≡ at_rest.store.deposits)
    × (again.1.store.credits.row 7 ≡ some twice)
unfolding count_session
stripe_credit-credits_again_example =
    stripe_credit-credits_again none none stripe_body 100 101 at_rest (credit_row 7 50 10) refl refl
      refl refl refl

abbrev withdrawal_body : WithdrawBody fixed_point
withdrawal_body = record {
  account_id = 7;
  destination_address = "0x0123456789012345678901234567890123456789";
  amount_nmc = nmc 40;
  chain = "arbitrum";
}

withdraw-overdraws_example :
    let after = withdraw_twice withdrawal_body 100 101 at_rest in
    (after.0 ≡ ok (queued_as 101))
    × (available_column (after.1.store.credits.row 7) ≡ some (nmc 50 -ℤ nmc 40 -ℤ nmc 40))
withdraw-overdraws_example =
    withdraw-overdraws withdrawal_body 100 101 at_rest (credit_row 7 50 10) (nmc 50) refl refl refl
      refl refl refl refl refl (λ e. ground arith)

short_address :
    (withdraw (record withdrawal_body { destination_address = "0x01" }) 100 at_rest).0
    ≡ ok invalid_address
unfolding withdraw check_withdrawal
short_address = refl

get_job_logs-append_job_log_example :
    let after = append_job_log 1 "epoch 1\n" at_rest in
    ((get_job_logs 1 none at_rest).0
      ≡ ok (some (record { job_id = 1; output = ""; is_complete = false; offset = 0 })))
    × ((get_job_logs 1 (some 0) after.1).0
        ≡ ok (some (record { job_id = 1; output = "epoch 1\n"; is_complete = false; offset = 8 })))
get_job_logs-append_job_log_example =
    get_job_logs-append_job_log 1 "epoch 1\n" at_rest (job_row 1 running (some 5) none 0) refl refl

abbrev checkpoint_body : CheckpointBody
checkpoint_body = record {
  provider_id = 5;
  iteration = pos 3;
  elapsed_secs = pos 600;
  checkpoint_dir = "/tmp/ckpt//";
  dmtcp_files = [];
}

trims : checkpoint_url_of "/tmp/ckpt//" ≡ "file:///tmp/ckpt"
unfolding trim_end_slashes
trims = refl

save_checkpoint-migrate_example :
    let url = checkpoint_url_of "/tmp/ckpt//" in
    let after = (save_checkpoint 1 checkpoint_body 30 >> migrate_or_fail_job 1 5 100) at_rest in
    ((save_checkpoint 1 checkpoint_body 30 at_rest).0
      ≡ ok (record { checkpoint_id = 30; checkpoint_url = url }))
    × (after.1.store.jobs.row 1
        ≡ some (record (job_row 1 running (some 5) none 0) {
          state = queued;
          provider_id = none;
          failure_reason = some "provider_disconnect_checkpoint_restore";
          checkpoint_url = some url;
          checkpoint_iter = pos 3;
          last_heartbeat = some 1000;
        }))
    × (after.1.store.credits ≡ at_rest.store.credits)
    × (after.1.store.escrows ≡ at_rest.store.escrows)
save_checkpoint-migrate_example =
    save_checkpoint-migrate 1 checkpoint_body 30 5 100 at_rest (job_row 1 running (some 5) none 0)
      refl refl refl (omega arith) refl

restored_from :
    (get_checkpoint 1 (save_checkpoint 1 checkpoint_body 30 at_rest).1).0
    ≡ ok (record {
      job_id = 1;
      iteration = pos 3;
      checkpoint_dir = "/tmp/ckpt//";
      dmtcp_files = [];
      elapsed_secs = pos 600;
      coord_port = 0;
    })
unfolding get_checkpoint save_checkpoint latest scan scan_ids
restored_from = refl
