-- ===== src/Agent/Polling.antt =====
-- How the agent reads the job that is assigned to it, poll_for_job of agent/src/idle_monitor.rs, with the
-- runtimes of crates/nm-common/src/types.rs. The parser of a UUID is a parameter. The
-- download of a checkpoint, whose failure is ignored, is left out.
use Prim.Native.String.{String}
use text.Mathlib.Text.{◌==◌ as str_eq}
use neuralmesh.Common.{◌^◌, Option, ◌-◌, ◌%◌, ℕ, some, none, if◌then◌else◌, [], List, ◌∷◌}
use neuralmesh.Common.Int.{negsuc, ℤ, pos}
use neuralmesh.Coordinator.Lifecycle.{AssignedJob}
use neuralmesh.Coordinator.Store.{err, ok, Reply, unwrap_or}
use neuralmesh.Database.{RowId}
use neuralmesh.Float.{Float}

pub data Runtime : Type 0 where
  mlx torch_mps onnx_coreml llama_cpp shell : Runtime

abbrev pub from_str : String → Option Runtime
from_str s =
    if str_eq s "mlx"
    then some mlx
    else if str_eq s "torch-mps"
    then some torch_mps
    else if str_eq s "onnx-coreml"
    then some onnx_coreml
    else if str_eq s "llama-cpp"
    then some llama_cpp
    else if str_eq s "shell"
    then some shell
    else none

abbrev pub natural : ℤ → Option ℕ
natural (pos n) = some n
natural (negsuc n) = none

-- A value of the reply; a text that is an identifier stands as the number of it.
pub data Json (R : Float) : Type 0 where
  null : Json R
  integer : ℤ → Json R
  number : R.F → Json R
  string : String → Json R
  identifier : RowId → Json R

module _ {R : Float} where
  abbrev pub as_str : Json R → Option String
  as_str (string s) = some s
  as_str _ = none

  abbrev pub as_id : Json R → Option RowId
  as_id (identifier k) = some k
  as_id _ = none

  abbrev pub as_i64 : Json R → Option ℤ
  as_i64 (integer n) = some n
  as_i64 _ = none

  abbrev pub as_u64 : Json R → Option ℕ
  as_u64 (integer n) = natural n
  as_u64 _ = none

  abbrev pub as_f64 : Json R → Option R.F
  as_f64 (integer n) = some (R.of_int n)
  as_f64 (number x) = some x
  as_f64 _ = none

  -- What `json!` makes of a column that may be NULL.
  abbrev pub json_of : {A : Type 0} → (A → Json R) → Option A → Json R
  json_of f none = null
  json_of f (some a) = f a

  -- The keys of the reply of `get_assigned_job`.
  abbrev pub assigned_json : AssignedJob R → List (String × Json R)
  assigned_json j =
      ("job_id", identifier j.job_id)
      ∷ ("consumer_id", identifier j.consumer_id)
      ∷ ("runtime", json_of integer j.runtime)
      ∷ ("min_ram_gb", json_of integer j.min_ram_gb)
      ∷ ("max_duration_s", json_of integer j.max_duration_s)
      ∷ ("max_price_per_hour", json_of number j.max_price_per_hour)
      ∷ ("bundle_hash", json_of string j.bundle_hash)
      ∷ ("bundle_url", json_of string j.bundle_url)
      ∷ ("script_name", json_of string j.script_name)
      ∷ ("consumer_ssh_pubkey", json_of string j.consumer_ssh_pubkey)
      ∷ ("consumer_wg_pubkey", json_of string j.consumer_wg_pubkey)
      ∷ ("preferred_region", json_of string j.preferred_region)
      ∷ []

  -- `job[key]`, which is null where the object does not have the key
  abbrev pub field : String → List (String × Json R) → Json R
  field key [] = null
  field key (p ∷ ps) = let rest = field key ps in if str_eq p.0 key then p.1 else rest

-- `i64 as u32` wraps.
abbrev pub as_u32 : ℤ → ℕ
as_u32 (pos n) = n % 2 ^ 32
as_u32 (negsuc n) = 2 ^ 32 - 1 - n % 2 ^ 32

pub record JobSpec (R : Float) : Type 0 where
  pub job_id : RowId
  pub consumer_id : RowId
  pub runtime : Runtime
  pub min_ram_gb : ℕ
  pub max_duration_secs : ℕ
  pub max_price_per_hour : R.F
  pub bundle_hash : String
  pub bundle_url : String
  pub script_name : Option String
  pub consumer_ssh_pubkey : String
  pub consumer_wg_pubkey : String
  pub preferred_region : Option String
  pub checkpoint_url : Option String
  pub restore_attempts : ℕ

abbrev pub parsed : (RowId → Option RowId) → Option RowId → Option RowId
parsed parse_uuid none = none
parsed parse_uuid (some k) = parse_uuid k

module _ {R : Float} (parse_uuid : RowId → Option RowId) where
  -- An identifier that is missing is the empty text, 0, which is no UUID; the nil UUID is 0, too.
  abbrev pub job_spec : List (String × Json R) → JobSpec R
  job_spec job = record {
    job_id = unwrap_or (parsed parse_uuid (as_id (field "job_id" job))) 0;
    consumer_id = unwrap_or (as_id (field "consumer_id" job)) 0;
    runtime = unwrap_or (from_str (unwrap_or (as_str (field "runtime" job)) "shell")) shell;
    min_ram_gb = as_u32 (unwrap_or (as_i64 (field "min_ram_gb" job)) (pos 8));
    max_duration_secs = as_u32 (unwrap_or (as_i64 (field "max_duration_s" job)) (pos 3600));
    max_price_per_hour = unwrap_or (as_f64 (field "max_price_per_hour" job)) (R.lit 1 1);
    bundle_hash = unwrap_or (as_str (field "bundle_hash" job)) "";
    bundle_url = unwrap_or (as_str (field "bundle_url" job)) "";
    script_name = as_str (field "script_name" job);
    consumer_ssh_pubkey = unwrap_or (as_str (field "consumer_ssh_pubkey" job)) "";
    consumer_wg_pubkey = unwrap_or (as_str (field "consumer_wg_pubkey" job)) "";
    preferred_region = as_str (field "preferred_region" job);
    checkpoint_url = as_str (field "checkpoint_url" job);
    restore_attempts = unwrap_or (as_u64 (field "restore_attempts" job)) 0 % 2 ^ 32;
  }

  -- A refusal reads as no job.
  unfoldable pub poll_for_job : Reply (Option (AssignedJob R)) → Option (JobSpec R)
  poll_for_job (err e) = none
  poll_for_job (ok none) = none
  poll_for_job (ok (some j)) = some (job_spec (assigned_json j))
