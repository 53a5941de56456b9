-- ===== src/Agent/Stranding.antt =====
-- A provider that runs a job and falls silent.
use neuralmesh.Common.{◌≡◌, some, Option, none}
use neuralmesh.Coordinator.Grpc.{ProviderHeartbeat}
use neuralmesh.Coordinator.Rows.{Provider}
use neuralmesh.Database.{RowId}
use neuralmesh.Float.{Float}

-- A heartbeat of this provider that names no job.
abbrev NamesNone : (R : Float) → RowId → ProviderHeartbeat R → Type 0
NamesNone R k h = (h.provider_id ≡ k) × (h.active_job_id ≡ 0)

module _ {R : Float} where
  abbrev job_of_row : Option (Provider R) → Option RowId
  job_of_row none = none
  job_of_row (some p) = p.active_job_id
