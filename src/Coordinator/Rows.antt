-- ===== src/Coordinator/Rows.antt =====
-- The rows of the coordinator's and the ledger's tables, as far as the handlers use them:
-- coordinator/src/db/migrations. Times are seconds. Amounts are floats, NULL where the column allows it.
use Prim.Native.String.{String}
use neuralmesh.Common.{List, ℕ, Option, Bool}
use neuralmesh.Common.Int.{ℤ}
use neuralmesh.Database.{Table, RowId}
use neuralmesh.Float.{Float}

pub data JobState : Type 0 where
  queued matching assigned running migrating complete failed cancelled : JobState

-- The state of a provider is what its heartbeat says: `other` is any further text.
pub data ProviderState : Type 0 where
  offline available leased paused : ProviderState
  other : String → ProviderState

pub data EscrowState : Type 0 where
  locked released : EscrowState

pub data TxType : Type 0 where
  deposit withdraw withdrawal escrow_lock escrow_release earn : TxType

-- What a transaction refers to: a row, or a text of the caller.
pub data Reference : Type 0 where
  by_id : RowId → Reference
  by_text : String → Reference

pub record Job (R : Float) : Type 0 where
  pub job_id : RowId
  pub consumer_id : RowId
  pub provider_id : Option RowId
  pub runtime : Option ℤ
  pub min_ram_gb : Option ℤ
  pub max_duration_s : Option ℤ
  pub max_price_per_hour : Option R.F
  pub price_per_hour : Option R.F
  pub bundle_hash : Option String
  pub bundle_url : Option String
  pub consumer_ssh_pubkey : Option String
  pub consumer_wg_pubkey : Option String
  pub script_name : Option String
  pub preferred_region : Option String
  pub state : JobState
  pub output_hash : Option String
  pub actual_runtime_s : Option ℤ
  pub wireguard_endpoint : Option String
  pub ssh_port : Option ℤ
  pub started_at : Option ℕ
  pub completed_at : Option ℕ
  pub checkpoint_url : Option String
  pub checkpoint_iter : ℤ
  pub last_heartbeat : Option ℕ
  pub restore_attempts : ℕ
  pub failure_reason : Option String
  pub output_log : Option String

pub record Provider (R : Float) : Type 0 where
  pub provider_id : RowId
  pub chip_model : Option String
  pub unified_memory_gb : Option ℤ
  pub gpu_cores : Option ℤ
  pub metal_version : Option String
  pub serial_number : Option String
  pub installed_runtimes : Option (List String)
  pub bandwidth_mbps : Option ℤ
  pub region : Option String
  pub nm_version : Option String
  pub state : ProviderState
  pub floor_price_nmc_per_hour : Option R.F
  pub max_job_ram_gb : Option ℤ
  pub active_job_id : Option RowId
  pub trust_score : Option R.F
  pub jobs_completed : ℕ
  pub success_rate : Option R.F
  pub last_seen : Option ℕ
  pub gpu_util_pct : Option R.F
  pub ram_used_gb : Option ℤ
  pub total_gpu_hours_contributed : Option R.F

pub record Credit (R : Float) : Type 0 where
  pub account_id : RowId
  pub available_nmc : Option R.F
  pub escrowed_nmc : Option R.F
  pub total_earned_nmc : Option R.F
  pub total_spent_nmc : Option R.F

pub record Escrow (R : Float) : Type 0 where
  pub escrow_id : RowId
  pub job_id : RowId
  pub consumer_id : RowId
  pub provider_id : Option RowId
  pub locked_nmc : R.F
  pub state : EscrowState
  pub settled_at : Option ℕ

pub record Transaction (R : Float) : Type 0 where
  pub tx_id : RowId
  pub account_id : RowId
  pub tx_type : TxType
  pub amount_nmc : R.F
  pub balance_after : Option R.F
  pub reference : Option Reference

pub record DepositRecord (R : Float) : Type 0 where
  pub stripe_session_id : RowId
  pub account_id : RowId
  pub amount_nmc : R.F
  pub amount_myr : R.F

-- A device-locked account; its key is unique among the accounts.
pub record Account : Type 0 where
  pub account_id : RowId
  pub ecdsa_pubkey_hex : String
  pub device_fingerprint_hash : String
  pub device_label : Option String
  pub platform : Option String
  pub hardware_serial_hash : Option String
  pub role : Option String
  pub active : Option Bool
  pub created_at : Option ℕ
  pub last_seen : Option ℕ

pub record KycRecord (R : Float) : Type 0 where
  pub account_id : RowId
  pub country_code : String
  pub full_name : String
  pub id_type : String
  pub id_number_hash : String
  pub kyc_level : ℕ
  pub annual_limit_myr : R.F
  pub submitted_at : ℕ
  pub verified_at : Option ℕ
  pub archived : Bool

pub record Checkpoint : Type 0 where
  pub checkpoint_id : RowId
  pub job_id : RowId
  pub provider_id : RowId
  pub iteration : ℤ
  pub checkpoint_dir : String
  pub dmtcp_files : List String
  pub elapsed_secs : ℤ

pub record MilestoneReward (R : Float) : Type 0 where
  pub provider_id : RowId
  pub milestone_hours : ℤ
  pub reward_hc : R.F
  pub account_id : RowId
  pub tx_id : Option RowId

pub record Store (R : Float) : Type 0 where
  pub jobs : Table (Job R)
  pub providers : Table (Provider R)
  pub credits : Table (Credit R)
  pub escrows : Table (Escrow R)
  pub transactions : Table (Transaction R)
  pub deposits : List (DepositRecord R)
  pub accounts : Table Account
  pub kyc_records : Table (KycRecord R)
  pub checkpoints : Table Checkpoint
  pub milestones : List (MilestoneReward R)

-- What the coordinator asks of the settlement oracle, coordinator/src/on_chain.rs.
pub data OracleCall (R : Float) : Type 0 where
  release_escrow : (job_id : RowId) (actual_cost_nmc : R.F) → OracleCall R
  cancel_escrow : (job_id : RowId) → OracleCall R
