-- ===== src/Coordinator/Grpc.antt =====
-- The gRPC service of the coordinator, coordinator/src/api/grpc.rs. A protocol message is a record of
-- the fields that the handler reads; an empty text is the id 0.
pub mod Completion
pub mod Uncovered
use mathlib.Core.Option
use Prim.Native.String.{String}
use text.Mathlib.Text.{◌==◌ as str_eq}
use neuralmesh.Common.{
  ℕ, Bool, false, some, none, true, Option, List, ltb, if◌then◌else◌, ◌==◌, zero,
}
use neuralmesh.Common.Int.{pos, ◌-ℤ◌, ℤ}
use neuralmesh.Coordinator.Jobs.{insert_job}
use neuralmesh.Coordinator.Rows.{
  cancelled as cancelled_state, available, paused, leased, offline, Provider, other, running, Job,
  queued, ProviderState,
}
use neuralmesh.Coordinator.Store.{
  pure, get_now, ◌>>◌, on_providers, on_jobs, Db, or_fail, ◌>>=◌, exec, bad_request,
}
use neuralmesh.Database.{RowId, upsert_row, update_key}
use neuralmesh.Float.{Float}

pub record MacChipInfo : Type 0 where
  pub chip_model : String
  pub unified_memory_gb : ℕ
  pub gpu_cores : ℕ
  pub metal_version : String
  pub serial_number : String

pub record ProviderCapabilities (R : Float) : Type 0 where
  pub chip : Option MacChipInfo
  pub installed_runtimes : List String
  pub max_job_ram_gb : ℕ
  pub bandwidth_mbps : ℕ
  pub region : String
  pub floor_price_nmc_per_hour : R.F

pub record RegisterProviderRequest (R : Float) : Type 0 where
  pub capabilities : Option (ProviderCapabilities R)
  pub provider_id : RowId
  pub nm_version : String

pub record ProviderHeartbeat (R : Float) : Type 0 where
  pub provider_id : RowId
  pub state : String
  pub gpu_util_pct : R.F
  pub ram_used_gb : ℕ
  pub active_job_id : RowId

pub record JobAccepted : Type 0 where
  pub job_id : RowId
  pub wireguard_endpoint : String
  pub ssh_port : ℕ

pub record JobComplete : Type 0 where
  pub job_id : RowId
  pub provider_id : RowId
  pub exit_code : ℤ
  pub output_hash : String
  pub actual_runtime_s : ℕ

pub record JobRequirements (R : Float) : Type 0 where
  pub runtime : ℤ
  pub min_ram_gb : ℕ
  pub max_duration_s : ℕ
  pub max_price_per_h : R.F

pub record JobSubmitRequest (R : Float) : Type 0 where
  pub consumer_id : RowId
  pub requirements : Option (JobRequirements R)
  pub bundle_hash : String
  pub bundle_upload_url : String
  pub consumer_ssh_pubkey : String
  pub consumer_wg_pubkey : String

-- `u32 as i32` wraps.
abbrev pub as_i32 : ℕ → ℤ
as_i32 n = if ltb n 2147483648 then pos n else pos n -ℤ pos 4294967296

-- `u64 as i64` wraps.
abbrev pub as_i64 : ℕ → ℤ
as_i64 n = if ltb n 9223372036854775808 then pos n else pos n -ℤ pos 18446744073709551616

abbrev pub provider_state : String → ProviderState
provider_state s =
    if str_eq s "offline"
    then offline
    else if str_eq s "available"
    then available
    else if str_eq s "leased"
    then leased
    else if str_eq s "paused"
    then paused
    else other s

-- NULLIF($4, '')
abbrev pub null_if_empty : RowId → Option RowId
null_if_empty k = if k == 0 then none else some k

abbrev pub is_zero : ℤ → Bool
is_zero (pos zero) = true
is_zero _ = false

module _ {R : Float} where
  abbrev pub new_provider :
      RegisterProviderRequest R → ProviderCapabilities R → MacChipInfo → Provider R
  new_provider req caps chip = record {
    provider_id = req.provider_id;
    chip_model = some (chip.chip_model);
    unified_memory_gb = some (as_i32 chip.unified_memory_gb);
    gpu_cores = some (as_i32 chip.gpu_cores);
    metal_version = some (chip.metal_version);
    serial_number = some (chip.serial_number);
    installed_runtimes = some (caps.installed_runtimes);
    bandwidth_mbps = some (as_i32 caps.bandwidth_mbps);
    region = some (caps.region);
    nm_version = some (req.nm_version);
    state = offline;
    floor_price_nmc_per_hour = some (caps.floor_price_nmc_per_hour);
    max_job_ram_gb = some (as_i32 caps.max_job_ram_gb);
    active_job_id = none;
    trust_score = some (R.lit 30 1);
    jobs_completed = 0;
    success_rate = some (R.lit 10 1);
    last_seen = none;
    gpu_util_pct = some (R.lit 0 0);
    ram_used_gb = some (pos 0);
    total_gpu_hours_contributed = some (R.lit 0 1);
  }

  -- ON CONFLICT … DO UPDATE
  abbrev pub refresh_provider : ProviderCapabilities R → MacChipInfo → Provider R → Provider R
  refresh_provider caps chip p = record p {
    chip_model = some (chip.chip_model);
    unified_memory_gb = some (as_i32 chip.unified_memory_gb);
    gpu_cores = some (as_i32 chip.gpu_cores);
    installed_runtimes = some (caps.installed_runtimes);
    floor_price_nmc_per_hour = some (caps.floor_price_nmc_per_hour);
    state = offline;
  }

  unfoldable pub register_provider : RegisterProviderRequest R → Db R (Unit {0})
  register_provider req = do
    caps ← or_fail (req.capabilities) bad_request
    chip ← or_fail (caps.chip) bad_request
    exec (
        on_providers
          (upsert_row req.provider_id (new_provider req caps chip) (refresh_provider caps chip)))

  abbrev pub hear : ProviderHeartbeat R → ℕ → Provider R → Provider R
  hear hb now p = record p {
    state = provider_state hb.state;
    gpu_util_pct = some (hb.gpu_util_pct);
    ram_used_gb = some (as_i32 hb.ram_used_gb);
    active_job_id = null_if_empty hb.active_job_id;
    last_seen = some now;
  }

  unfoldable pub send_heartbeat : ProviderHeartbeat R → Db R (Unit {0})
  send_heartbeat hb = do
    now ← get_now
    exec (on_providers (update_key hb.provider_id (hear hb now)))

  unfoldable pub acknowledge_job : JobAccepted → Db R (Unit {0})
  acknowledge_job ja = exec (
      on_jobs (
        update_key ja.job_id (λ j. record j {
          state = running;
          wireguard_endpoint = some (ja.wireguard_endpoint);
          ssh_port = some (as_i32 ja.ssh_port);
        })))

  abbrev pub submitted_job : JobSubmitRequest R → JobRequirements R → RowId → Job R
  submitted_job req reqs job_id = record {
    job_id = job_id;
    consumer_id = req.consumer_id;
    provider_id = none;
    runtime = some (reqs.runtime);
    min_ram_gb = some (as_i32 reqs.min_ram_gb);
    max_duration_s = some (as_i32 reqs.max_duration_s);
    max_price_per_hour = some (reqs.max_price_per_h);
    price_per_hour = none;
    bundle_hash = some (req.bundle_hash);
    bundle_url = some (req.bundle_upload_url);
    consumer_ssh_pubkey = some (req.consumer_ssh_pubkey);
    consumer_wg_pubkey = some (req.consumer_wg_pubkey);
    script_name = none;
    preferred_region = none;
    state = queued;
    output_hash = none;
    actual_runtime_s = none;
    wireguard_endpoint = none;
    ssh_port = some (pos 2222);
    started_at = none;
    completed_at = none;
    checkpoint_url = none;
    checkpoint_iter = pos 0;
    last_heartbeat = none;
    restore_attempts = 0;
    failure_reason = none;
    output_log = none;
  }

  unfoldable pub submit_job : JobSubmitRequest R → RowId → Db R RowId
  submit_job req job_id = do
    reqs ← or_fail (req.requirements) bad_request
    exec (insert_job (submitted_job req reqs job_id))
    pure job_id

  -- UPDATE jobs SET state = 'cancelled' WHERE job_id = $1 AND consumer_id = $2
  unfoldable pub cancel_job : RowId → RowId → Db R (Unit {0})
  cancel_job job_id consumer_id = exec (
      on_jobs (
        update_key job_id
          (λ j. if j.consumer_id == consumer_id then record j { state = cancelled_state } else j)))
