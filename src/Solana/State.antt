-- ===== src/Solana/State.antt =====
-- contracts/solana/programs/neuralmesh/src/state.rs, errors.rs and the events of lib.rs: the data of
-- the on-chain programme. A Pubkey is a number, a string or a byte array a list of bytes, an unsigned
-- integer a natural number (the guards keep it in range) and an i64 an integer.
use neuralmesh.Common.{ℕ, ◌+◌, List, Bool}
use neuralmesh.Common.Int.{ℤ}

abbrev pub Pubkey : Type 0
Pubkey = ℕ

abbrev pub Bytes : Type 0
Bytes = List ℕ

pub data NmError : Type 0 where
  unauthorized soul_bound mint_limit_exceeded insufficient_balance : NmError
  already_registered invalid_commitment provider_revoked vendor_too_long model_too_long : NmError
  escrow_not_open escrow_not_locked deadline_not_reached cost_exceeds_locked : NmError
  fee_too_high job_id_too_long : NmError

pub record ProgramConfig : Type 0 where
  pub authority : Pubkey
  pub nmc_mint : Pubkey
  pub platform_fee_bps : ℕ
  pub fee_collector : Pubkey
  pub bridge_mint_limit : ℕ
  pub total_minted : ℕ
  pub total_burned : ℕ
  pub bump : ℕ

-- The sizes of `space = …`: the discriminator, then the fields in order.
abbrev pub program_config_len : ℕ
program_config_len = 8 + 32 + 32 + 2 + 32 + 8 + 8 + 8 + 1

pub record ProviderRecord : Type 0 where
  pub provider : Pubkey
  pub nft_mint : Pubkey
  pub gpu_vendor : Bytes
  pub gpu_model : Bytes
  pub memory_gb : ℕ
  pub gpu_cores : ℕ
  pub attestation_commitment : Bytes
  pub ed25519_pubkey : Bytes
  pub dil3_pubkey_hash : Bytes
  pub jobs_completed : ℕ
  pub nmc_earned : ℕ
  pub trust_score_milli : ℕ
  pub registered_at : ℤ
  pub revoked : Bool
  pub bump : ℕ

abbrev pub provider_record_len : ℕ
provider_record_len = 8 + 32 + 32 + 32 + 64 + 2 + 4 + 32 + 64 + 32 + 8 + 8 + 2 + 8 + 1 + 1

pub data EscrowState : Type 0 where
  open_escrow locked settled cancelled : EscrowState

pub record JobEscrow : Type 0 where
  pub job_id : Bytes
  pub job_id_len : ℕ
  pub consumer : Pubkey
  pub provider : Pubkey
  pub locked_nmc : ℕ
  pub price_per_hour : ℕ
  pub max_duration_secs : ℕ
  pub deadline : ℤ
  pub state : EscrowState
  pub actual_cost : ℕ
  pub consumer_token_account : Pubkey
  pub provider_token_account : Pubkey
  pub vault : Pubkey
  pub fee_collected : ℕ
  pub created_at : ℤ
  pub settled_at : ℤ
  pub bump : ℕ

abbrev pub job_escrow_len : ℕ
job_escrow_len = 8 + 64 + 1 + 32 + 32 + 8 + 8 + 4 + 8 + 2 + 8 + 32 + 32 + 32 + 8 + 8 + 8 + 1

pub record BridgeNonce : Type 0 where
  pub authority : Pubkey
  pub next_nonce : ℕ
  pub bump : ℕ

abbrev pub bridge_nonce_len : ℕ
bridge_nonce_len = 8 + 32 + 8 + 1

-- The `#[event]` structs, with their fields in order.
pub data Event : Type 0 where
  bridge_mint_event : (recipient : Pubkey) (amount nonce : ℕ) → Event
  bridge_burn_event : (user : Pubkey) (amount : ℕ) → Event
  provider_registered_event :
      (provider nft_mint : Pubkey) (gpu_vendor gpu_model attestation_commitment : Bytes) → Event
  provider_revoked_event : (provider nft_mint : Pubkey) → Event
  escrow_created_event : (job_id : Bytes) (consumer provider : Pubkey) (locked_nmc : ℕ) → Event
  escrow_settled_event : (provider consumer : Pubkey) (actual_cost fee consumer_refund : ℕ) → Event
