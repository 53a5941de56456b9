-- ===== src/Agent.antt =====
-- The idle monitor of the provider's agent, agent/src/idle_monitor.rs, with the heartbeat of
-- agent/src/coordinator_client.rs. A cycle of its loop takes what it reads, and gives the heartbeats that it
-- sends; whether one arrives changes nothing here. Times are seconds; the job runs in a task of its own.
pub mod Stranding
pub mod Polling
pub mod Checkpoint
pub mod Runner
pub mod Runtimes
mod Tests
mod RunTests
use Prim.Native.String.{String}
use neuralmesh.Common.{
  Bool, ◌&&◌, [], none, ◌-◌, ◌%◌, ℕ, some, ◌/◌, false, ◌^◌, ◌∷◌, List, Option, ◌++◌, true, leb,
  if◌then◌else◌,
}
use neuralmesh.Coordinator.Grpc.{ProviderHeartbeat}
use neuralmesh.Coordinator.Store.{unwrap_or}
use neuralmesh.Database.{RowId}
use neuralmesh.Float.{Float}
use neuralmesh.Idle.{
  IdleState, busy, cooling_down, available, leased, paused, IdleDetector, new_detector, poll,
  Reading,
}

pub record Monitor (R : Float) : Type 0 where
  pub provider_id : RowId
  pub detector : IdleDetector R
  pub current_state : IdleState
  pub last_heartbeat : ℕ

-- A sample of the GPU: its utilisation, and its memory in MB.
pub record GpuStats (R : Float) : Type 0 where
  pub utilization_pct : R.F
  pub memory_used_mb : ℕ

abbrev pub state_to_str : IdleState → String
state_to_str busy = "busy"
state_to_str cooling_down = "cooling_down"
state_to_str available = "available"
state_to_str leased = "leased"
state_to_str paused = "paused"

abbrev pub is_offering : IdleState → Bool
is_offering available = true
is_offering _ = false

module _ {R : Float} where
  -- `active_job_id.unwrap_or("")`
  abbrev pub heartbeat : RowId → String → R.F → ℕ → Option RowId → ProviderHeartbeat R
  heartbeat provider_id state gpu_util_pct ram_used_gb active_job_id = record {
    provider_id = provider_id;
    state = state;
    gpu_util_pct = gpu_util_pct;
    ram_used_gb = ram_used_gb;
    active_job_id = unwrap_or active_job_id 0;
  }

  abbrev pub new_monitor : RowId → R.F → ℕ → ℕ → Monitor R
  new_monitor provider_id threshold_pct cool_down_minutes now = record {
    provider_id = provider_id;
    detector = new_detector threshold_pct cool_down_minutes;
    current_state = busy;
    last_heartbeat = now;
  }

  -- What is sent at once where the state has changed.
  abbrev pub announcement : RowId → Option IdleState → List (ProviderHeartbeat R)
  announcement k (some available) = heartbeat k "available" (R.lit 0 0) 0 none ∷ []
  announcement k (some busy) = heartbeat k "busy" (R.lit 0 0) 0 none ∷ []
  announcement k _ = []

  abbrev pub gpu_util : Option (GpuStats R) → R.F
  gpu_util none = R.lit 0 0
  gpu_util (some g) = g.utilization_pct

  abbrev pub ram_used : Option (GpuStats R) → ℕ
  ram_used none = 0
  ram_used (some g) = g.memory_used_mb / 1024 % 2 ^ 32

  -- The heartbeat of every 30 seconds.
  abbrev pub regular : RowId → IdleState → Option (GpuStats R) → Bool → List (ProviderHeartbeat R)
  regular k state stats due =
      if due
      then heartbeat k (state_to_str state) (gpu_util stats) (ram_used stats) none ∷ []
      else []

  -- `offered` is whether poll_for_job finds a job.
  unfoldable pub cycle :
      Reading R → Option (GpuStats R) → Bool → Monitor R → Monitor R × List (ProviderHeartbeat R)
  unfolding poll
  cycle r stats offered m =
      let polled = poll r m.detector in
      let current = unwrap_or polled.1 m.current_state in
      let state = if is_offering current && offered then leased else current in
      let due = leb 30 (r.now - m.last_heartbeat) in
      (
        record m {
          detector = polled.0;
          current_state = state;
          last_heartbeat = if due then r.now else m.last_heartbeat;
        },
        announcement m.provider_id polled.1 ++ regular m.provider_id state stats due,
      )
