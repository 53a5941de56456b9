-- ===== src/Agent/Tests.antt =====
-- A provider that runs job 1 and sends its heartbeat.
use neuralmesh.Common.{◌≡◌, none, some, refl, Option, false}
use neuralmesh.Agent.{heartbeat, new_monitor, GpuStats, Monitor}
use neuralmesh.Agent.Polling.{poll_for_job, JobSpec, shell}
use neuralmesh.Agent.Runtimes.{get_assigned_job-poll_for_job}
use neuralmesh.Coordinator.Grpc.{ProviderHeartbeat}
use neuralmesh.Coordinator.Lifecycle.{get_assigned_job}
use neuralmesh.Coordinator.Rows.{leased as leased_provider, running, assigned}
use neuralmesh.Coordinator.Sample.{
  nmc, fixed_point, one_row, job_row, connected, provider_row, no_rows,
}
use neuralmesh.Coordinator.Store.{Conn}
use neuralmesh.Database.{scan, scan_ids}
use neuralmesh.Idle.{Reading}

abbrev detecting : Monitor fixed_point
detecting = new_monitor 5 (nmc 5) 10 0

-- The GPU is busy with the job.
abbrev working_gpu : Reading fixed_point
working_gpu = record { utilization_pct = some (nmc 90); force = false; now = 40 }

abbrev gpu_sample : Option (GpuStats fixed_point)
gpu_sample = some (record { utilization_pct = nmc 90; memory_used_mb = 8192 })

abbrev sent : ProviderHeartbeat fixed_point
sent = heartbeat 5 "busy" (nmc 90) 8 none

abbrev running_job : Conn fixed_point
running_job =
    connected (one_row 1 (job_row 1 running (some 5) none 0))
      (one_row 5 (provider_row 5 leased_provider 2 (some 1))) no_rows

-- A job for MLX that has a checkpoint and was restored twice.
abbrev waiting_job : Conn fixed_point
waiting_job =
    connected (one_row 1 (job_row 1 assigned (some 5) (some "u") 2))
      (one_row 5 (provider_row 5 leased_provider 2 (some 1))) no_rows

abbrev polled : JobSpec fixed_point
polled = record {
  job_id = 1;
  consumer_id = 7;
  runtime = shell;
  min_ram_gb = 16;
  max_duration_secs = 3600;
  max_price_per_hour = nmc 10;
  bundle_hash = "";
  bundle_url = "";
  script_name = none;
  consumer_ssh_pubkey = "";
  consumer_wg_pubkey = "";
  preferred_region = none;
  checkpoint_url = none;
  restore_attempts = 0;
}

is_polled : poll_for_job (λ k. some k) (get_assigned_job 5 waiting_job).0 ≡ some polled
unfolding poll_for_job get_assigned_job scan scan_ids
is_polled = refl

get_assigned_job-poll_for_job_example :
    (polled.runtime ≡ shell) × (polled.checkpoint_url ≡ none) × (polled.restore_attempts ≡ 0)
get_assigned_job-poll_for_job_example =
    get_assigned_job-poll_for_job (λ k. some k) 5 waiting_job polled is_polled
