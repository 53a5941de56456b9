-- ===== src/Agent/RunTests.antt =====
-- Runs of job 1 on a machine that has nothing but a sandbox, and its checkpoints.
use Prim.Native.String.{String}
use neuralmesh.Common.{◌≡◌, none, ◌+◌, ℕ, false, refl, [], some, true, arith, ◌∷◌}
use neuralmesh.Agent.Checkpoint.{
  derive_port, CheckpointMeta, restore, Ticker, checkpoint_ticker, Tick, fetch_checkpoint_meta,
  restarted,
}
use neuralmesh.Agent.Checkpoint.Shadow.{checkpoint_ticker-get_checkpoint, save_all}
use neuralmesh.Agent.Polling.{shell, JobSpec}
use neuralmesh.Agent.Runner.{entry_script, Machine, not_started, exited, finished}
use neuralmesh.Agent.Runner.Report.{Delivery, run_job}
use neuralmesh.Agent.Runner.Running.{run, run_sandboxed}
use neuralmesh.Agent.Runner.Unheard.{run_job-output_of}
use neuralmesh.Common.Int.{◌+ℤ◌, ◌-ℤ◌, ◌*ℤ◌, pos}
use neuralmesh.Common.Text.{bytes}
use neuralmesh.Coordinator.Checkpoints.{latest, reply_of, get_checkpoint}
use neuralmesh.Coordinator.Lifecycle.{AssignedJob}
use neuralmesh.Coordinator.Lifecycle.Output.{output_of}
use neuralmesh.Coordinator.Rows.{Checkpoint}
use neuralmesh.Coordinator.Sample.{finishing, nmc, one_row, under_way, fixed_point}
use neuralmesh.Coordinator.Store.{ok, Conn}
use neuralmesh.Database.{RowId, scan_ids, scan}

abbrev bare_machine : Machine fixed_point
bare_machine = record {
  is_vm_available = false;
  run_in_vm = λ script. none;
  is_dmtcp_available = false;
  creates_work_dir = true;
  bundle = λ url. some (1 ∷ []);
  digest = λ content. "h";
  bytes_of = λ s. bytes s;
  extracts = true;
  exists_in_dir = λ path. false;
  listing = "setup.cfg" ∷ ("job.py" ∷ []);
  exists_path = λ path. false;
  which = λ program. true;
  creates_sandbox = true;
  process = λ python script. exited (some (pos 0)) "done";
  reads_checkpoint = none;
  exists_file = λ path. true;
  restarts = not_started;
  gpu_samples = nmc 90 ∷ (nmc 70 ∷ []);
  gpu_stats = none;
  elapsed = 60;
  cleans_up = true;
}

abbrev sample_spec : JobSpec fixed_point
sample_spec = record {
  job_id = 1;
  consumer_id = 7;
  runtime = shell;
  min_ram_gb = 16;
  max_duration_secs = 3600;
  max_price_per_hour = nmc 10;
  bundle_hash = "h";
  bundle_url = "http://b";
  script_name = none;
  consumer_ssh_pubkey = "";
  consumer_wg_pubkey = "";
  preferred_region = none;
  checkpoint_url = none;
  restore_attempts = 0;
}

abbrev all_arrives : Delivery
all_arrives = record { log = true; report = true }

abbrev text_of : RowId → String
text_of k = "job"

-- No shell script, but a Python file; the process exits with 0.
runs :
    (run text_of bare_machine sample_spec "/opt" none).0
    ≡ finished (record {
      job_id = 1;
      exit_code = pos 0;
      output_hash = "h";
      actual_runtime_s = 60;
      avg_gpu_util_pct = nmc 80;
      peak_ram_gb = 0;
    })
unfolding run run_sandboxed entry_script ◌+ℤ◌ ◌-ℤ◌ ◌*ℤ◌
runs = refl

run_job-output_of_example :
    output_of (
      (run_job text_of bare_machine sample_spec "/opt" none all_arrives 5 9
          finishing).1.store.jobs.row
        1)
    ≡ none
run_job-output_of_example =
    run_job-output_of text_of bare_machine sample_spec "/opt" all_arrives 5 9 finishing 1 refl refl

abbrev bundleless : AssignedJob fixed_point
bundleless = record {
  job_id = 1;
  consumer_id = 7;
  runtime = some (pos 0);
  min_ram_gb = some (pos 16);
  max_duration_s = some (pos 3600);
  max_price_per_hour = some (nmc 10);
  bundle_hash = none;
  bundle_url = none;
  script_name = none;
  preferred_region = none;
  consumer_ssh_pubkey = none;
  consumer_wg_pubkey = none;
}

-- The sixth checkpoint of the first session.
abbrev sixth : Checkpoint
sixth = record {
  checkpoint_id = 20;
  job_id = 1;
  provider_id = 4;
  iteration = pos 6;
  checkpoint_dir = "/var/neuralmesh/checkpoints/job";
  dmtcp_files = "a.dmtcp" ∷ [];
  elapsed_secs = pos 1800;
}

abbrev restored_once : Conn fixed_point
restored_once = record under_way {
  store = record (under_way.store) { checkpoints = one_row 20 sixth };
}

abbrev second_session : Ticker
second_session = record {
  job_id = 1;
  provider_id = 5;
  coord_port = 7798;
  checkpoint_dir = "/var/neuralmesh/checkpoints/job";
}

abbrev round : ℕ → Tick
round elapsed = record {
  succeeds = true;
  files = "b.dmtcp" ∷ [];
  elapsed = elapsed;
  is_saved = true;
  arrives = true;
}

given : (get_checkpoint 1 restored_once).0 ≡ ok (reply_of 1 sixth)
unfolding get_checkpoint latest scan scan_ids
given = refl

checkpoint_ticker-get_checkpoint_example :
    let after =
      (save_all 1
        (λ n. 30 + n)
        0
        (checkpoint_ticker second_session (round 300 ∷ (round 600 ∷ [])))
        restored_once).1 in
    (get_checkpoint 1 (record after { faults = [] })).0 ≡ ok (reply_of 1 sixth)
checkpoint_ticker-get_checkpoint_example =
    checkpoint_ticker-get_checkpoint second_session (round 300 ∷ (round 600 ∷ [])) (λ n. 30 + n)
      restored_once (reply_of 1 sixth) 6 ((sixth, refl), tt) given refl (omega arith)

abbrev fetched : CheckpointMeta
fetched = record {
  job_id = 1;
  iteration = 6;
  checkpoint_dir = "/var/neuralmesh/checkpoints/job";
  elapsed_secs = 1800;
  coord_port = 0;
  dmtcp_files = "a.dmtcp" ∷ [];
}

is_fetched : fetch_checkpoint_meta (ok (reply_of 1 sixth)) ≡ some fetched
unfolding fetch_checkpoint_meta
is_fetched = refl

-- 7780 + (106 + 111 + 98) % 200
is_restored :
    restore text_of (λ path. true) true fetched
    ≡ restarted 7895 ("/var/neuralmesh/checkpoints/job/a.dmtcp" ∷ [])
unfolding restore derive_port
is_restored = refl
