-- ===== src/Coordinator/AccountTests.antt =====
-- The coordinator's accounts, KYC records and gRPC service at small databases.
use neuralmesh.Coordinator.Grpc
use neuralmesh.Coordinator.Jobs
use Prim.Native.String.{String}
use neuralmesh.Common.{some, [], none, ◌≡◌, arith, refl, ◌∷◌, true, false}
use neuralmesh.Common.Int.{pos, ◌*ℤ◌, ◌+ℤ◌, ◌-ℤ◌}
use neuralmesh.Coordinator.Accounts.{
  register_account, ReregisterBody, updated, fingerprint_differs, verify_device, new_account,
  verified_device, device_mismatch, reregister_device, RegisterAccountBody, registered,
}
use neuralmesh.Coordinator.Accounts.Devices.{reregister_device-verify_device}
use neuralmesh.Coordinator.Grpc.{JobSubmitRequest, JobRequirements, submitted_job, JobComplete}
use neuralmesh.Coordinator.Grpc.Completion.{report_completion, claim, count_claimed, is_claimed}
use neuralmesh.Coordinator.Grpc.Uncovered.{submit_job-cancel_job}
use neuralmesh.Coordinator.Kyc.{pending, get_kyc, submit_kyc, approved, KycSubmitBody}
use neuralmesh.Coordinator.Kyc.Approval.{submit_kyc-get_kyc}
use neuralmesh.Coordinator.Rows.{leased, KycRecord, MilestoneReward, running, Account, Provider}
use neuralmesh.Coordinator.Sample.{
  job_row, one_row, no_rows, fixed_point, credit_row, nmc, connected, provider_row,
}
use neuralmesh.Coordinator.Store.{ok, pure, Conn}
use neuralmesh.Database.{scan_ids, scan}

abbrev fingerprint : String
fingerprint = "0123456789abcdef0123456789abcdef0123456789abcdef0123456789abcdef"

abbrev new_fingerprint : String
new_fingerprint = "f123456789abcdef0123456789abcdef0123456789abcdef0123456789abcdef"

abbrev registration : RegisterAccountBody
registration = record {
  ecdsa_pubkey_hex = "04ab";
  device_fingerprint_hash = fingerprint;
  device_label = none;
  platform = none;
  hardware_serial_hash = none;
}

abbrev alice : Account
alice = new_account registration 7 1000

abbrev with_alice : Conn fixed_point
with_alice =
    let c = connected no_rows no_rows no_rows in
    record c { store = record (c.store) { accounts = one_row 7 alice } }

-- The old fingerprint is not the one that is bound.
abbrev rebinding : ReregisterBody
rebinding = record {
  ecdsa_pubkey_hex = "04ab";
  new_device_fingerprint_hash = new_fingerprint;
  old_device_fingerprint_hash = new_fingerprint;
  device_label = none;
}

registers :
    (register_account (λ s. 7) registration (connected no_rows no_rows no_rows)).0
    ≡ ok (registered 7 (some 1000) (some 1000))
unfolding register_account scan scan_ids
registers = refl

second_device :
    (register_account
      (λ s. 8)
      (record registration { device_fingerprint_hash = new_fingerprint })
      with_alice).0
    ≡ ok device_mismatch
unfolding register_account scan scan_ids
second_device = refl

reregister_device-verify_device_example :
    let after = reregister_device 7 rebinding with_alice in
    (after.0 ≡ ok (updated 7 (some 1000)))
    × ((verify_device 7
          (record { device_fingerprint_hash = new_fingerprint; ecdsa_pubkey_hex = "04ab" })
          after.1).0
        ≡ ok verified_device)
    × ((verify_device 7
          (record { device_fingerprint_hash = fingerprint; ecdsa_pubkey_hex = "04ab" })
          after.1).0
        ≡ ok fingerprint_differs)
reregister_device-verify_device_example =
    reregister_device-verify_device 7 rebinding with_alice alice fingerprint refl refl refl refl
      refl refl refl

abbrev approved_kyc : KycRecord fixed_point
approved_kyc = record {
  account_id = 7;
  country_code = "MY";
  full_name = "Alice";
  id_type = "mykad";
  id_number_hash = "aa";
  kyc_level = 2;
  annual_limit_myr = nmc 50;
  submitted_at = 10;
  verified_at = some 20;
  archived = true;
}

abbrev with_kyc : Conn fixed_point
with_kyc = record with_alice {
  store = record (with_alice.store) { kyc_records = one_row 7 approved_kyc };
}

abbrev bob : KycSubmitBody
bob = record {
  account_id = 7;
  full_name = "Bob";
  id_type = "passport";
  id_number = "K1";
  country = "SGP";
}

submit_kyc-get_kyc_example :
    let after = submit_kyc (λ s. s) bob with_kyc in
    (after.0 ≡ ok (some pending))
    × ((get_kyc 7 after.1).0
        ≡ ok (record {
          status = approved;
          compliance_level = 2;
          record_of = some (record {
            account_id = 7;
            country_code = "SG";
            full_name = "Bob";
            id_type = "passport";
            id_number_hash = "K1";
            kyc_level = 2;
            annual_limit_myr = approved_kyc.annual_limit_myr;
            submitted_at = 1000;
            verified_at = some 20;
            archived = false;
          });
        }))
submit_kyc-get_kyc_example =
    submit_kyc-get_kyc (λ s. s) bob with_kyc alice approved_kyc 20 "SG" refl refl refl refl refl
      refl refl

-- "é" takes two bytes, of which the slice would keep one.
panics : (submit_kyc (λ s. s) (record bob { country = "Sé" }) with_kyc).0 ≡ ok none
unfolding submit_kyc
panics = refl

abbrev needs : JobRequirements fixed_point
needs = record { runtime = pos 0; min_ram_gb = 16; max_duration_s = 3600; max_price_per_h = nmc 10 }

abbrev request : JobSubmitRequest fixed_point
request = record {
  consumer_id = 7;
  requirements = some needs;
  bundle_hash = "aa";
  bundle_upload_url = "";
  consumer_ssh_pubkey = "";
  consumer_wg_pubkey = "";
}

submit_job-cancel_job_example :
    let submitted = Grpc.submit_job request 1 with_alice in
    (submitted.0 ≡ ok 1)
    × (submitted.1.store.jobs.row 1 ≡ some (submitted_job request needs 1))
    × (submitted.1.store.credits ≡ with_alice.store.credits)
    × (submitted.1.store.escrows ≡ with_alice.store.escrows)
    × ((Jobs.cancel_job 1 submitted.1).1.store.credits.row 7
        ≡ some (record (credit_row 7 50 10) { available_nmc = none; escrowed_nmc = some (pos 0) }))
submit_job-cancel_job_example =
    submit_job-cancel_job request needs 1 with_alice (credit_row 7 50 10) refl refl refl
      (λ k e h. ground arith) refl

-- A provider that has contributed 15 hours completes one more, and is paid for its second milestone.
abbrev contributor : Provider fixed_point
contributor = record (provider_row 5 leased 2 (some 1)) {
  total_gpu_hours_contributed = some (nmc 15);
}

abbrev first_reward : MilestoneReward fixed_point
first_reward = record {
  provider_id = 5;
  milestone_hours = pos 8;
  reward_hc = nmc 50;
  account_id = 5;
  tx_id = some 60;
}

abbrev contributing : Conn fixed_point
contributing =
    let c =
      connected (one_row 1 (job_row 1 running (some 5) none 0)) (one_row 5 contributor) no_rows in
    record c { store = record (c.store) { milestones = first_reward ∷ [] } }

abbrev completion : JobComplete
completion = record {
  job_id = 1;
  provider_id = 5;
  exit_code = pos 0;
  output_hash = "bb";
  actual_runtime_s = 3600;
}

second_reward :
    (report_completion (λ k m h. pure (some 61)) completion contributing).1.store.milestones
    ≡ record first_reward { milestone_hours = pos 16; tx_id = some 61 } ∷ (first_reward ∷ [])
unfolding report_completion ◌+ℤ◌ ◌-ℤ◌ ◌*ℤ◌ is_claimed claim count_claimed
second_reward = refl
