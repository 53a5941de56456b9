-- ===== src/Solana/Fixtures.antt =====
-- Accounts, ledgers and worlds of the sample runtime that the tests share.
use neuralmesh.Common.{[], Option, none, some, ◌∷◌, ℕ, refl, ◌==◌, if◌then◌else◌}
use neuralmesh.Common.Int.{pos}
use neuralmesh.Common.Text.{bytes}
use neuralmesh.Solana.Bridge.{config_seeds, Initialize, initialize}
use neuralmesh.Solana.Escrow.{ReleaseEscrow}
use neuralmesh.Solana.Programme.{execute, genesis, here, next, transact, Instruction, Reach}
use neuralmesh.Solana.Runtime.{ok, err, nonce, put, Result, config, TokenAccount, World, escrow}
use neuralmesh.Solana.Sample.{sample, Ledger, address}
use neuralmesh.Solana.State.{
  EscrowState, JobEscrow, open_escrow, BridgeNonce, Bytes, Pubkey, ProgramConfig,
}

abbrev pub from_ok : {A : Type 0} → A → Result A → A
from_ok d (ok a) = a
from_ok d (err e) = d

abbrev pub config_key : Pubkey
config_key = address 1 config_seeds

-- The authority is 9, the fee collector's account 22, the fee 3 %.
abbrev pub sample_config : ProgramConfig
sample_config = record {
  authority = 9;
  nmc_mint = 1;
  platform_fee_bps = 300;
  fee_collector = 22;
  bridge_mint_limit = 5000;
  total_minted = 0;
  total_burned = 0;
  bump = 255;
}

abbrev pub job : Bytes
job = bytes "job-1"

abbrev pub escrow_key : Pubkey
escrow_key = address 1 (bytes "escrow" ∷ job ∷ [])

abbrev pub vault_key : Pubkey
vault_key = address 1 (bytes "vault" ∷ job ∷ [])

-- Consumer 5 with account 20, provider 6 with account 21, a stranger's account 30.
abbrev pub sample_escrow : JobEscrow
sample_escrow = record {
  job_id = job;
  job_id_len = 5;
  consumer = 5;
  provider = 6;
  locked_nmc = 1000;
  price_per_hour = 100;
  max_duration_secs = 3600;
  deadline = pos 0;
  state = open_escrow;
  actual_cost = 0;
  consumer_token_account = 20;
  provider_token_account = 21;
  vault = vault_key;
  fee_collected = 0;
  created_at = pos 100;
  settled_at = pos 0;
  bump = 255;
}

abbrev pub sample_nonce : BridgeNonce
sample_nonce = record { authority = 9; next_nonce = 7; bump = 255 }

abbrev pub nonce_key : Pubkey
nonce_key = address 1 (bytes "bridge_nonce" ∷ (9 ∷ []) ∷ [])

abbrev pub account_with : Pubkey → ℕ → Option TokenAccount
account_with o n = some (record { mint = 1; owner = o; amount = n })

abbrev pub sample_tokens : Ledger
sample_tokens k =
    if k == vault_key
    then account_with escrow_key 1000
    else if k == 20
    then account_with 5 500
    else if k == 21
    then account_with 6 10
    else if k == 22
    then account_with 9 0
    else if k == 30
    then account_with 8 0
    else none

abbrev pub world_with : EscrowState → World sample
world_with s = record {
  accounts = λ k.
      if k == config_key
      then some (config sample_config)
      else if k == escrow_key
      then some (escrow (record sample_escrow { state = s }))
      else if k == nonce_key
      then some (nonce sample_nonce)
      else none;
  tokens = sample_tokens;
  clock = some (pos 200);
  events = [];
}

abbrev pub release_ctx : ReleaseEscrow
release_ctx = record {
  config = config_key;
  escrow = escrow_key;
  vault = vault_key;
  provider_token_account = 21;
  consumer_token_account = 20;
  fee_collector = 22;
  authority = 9;
}

-- A job of 700 leaves 679 for the provider, 21 for the platform and 300 for the consumer.
abbrev pub initialize_ctx : Initialize
initialize_ctx = record { config = config_key; authority = 9; nmc_mint = 1; fee_collector = 22 }

abbrev pub start : World sample
start = genesis sample_tokens (some (pos 50))

abbrev pub initialized : World sample
initialized =
    put config_key
      (config (record sample_config { platform_fee_bps = 250; bridge_mint_limit = 77 })) start

pub initialized_reached : Reach start initialized
unfolding execute initialize genesis
initialized_reached =
    next here (transact (Instruction.initialize initialize_ctx 250 77) start initialized refl)
