-- ===== src/Solana/EscrowTests.antt =====
-- Creation, locking and cancellation of escrows and registration of providers over the sample runtime.
use neuralmesh.Common.{[], ◌<◌, none, inl, ◌∷◌, ◌≡◌, arith, refl, length}
use neuralmesh.Common.Int.{pos, ◌+ℤ◌}
use neuralmesh.Common.Text.{bytes}
use neuralmesh.Solana.Escrow.{
  cancel_escrow, add_i64, lock_escrow, check_escrow_pda, CancelEscrow, CreateEscrow,
}
use neuralmesh.Solana.Escrow.Cancel.{CanCancel, cancel_by_stranger}
use neuralmesh.Solana.Fixtures.{
  world_with, sample_escrow, vault_key, sample_tokens, from_ok, initialized, sample_config,
  escrow_key, config_key,
}
use neuralmesh.Solana.Programme.{genesis}
use neuralmesh.Solana.Provider.{Registration, register_provider, RegisterProvider, mint_nft, padded}
use neuralmesh.Solana.Runtime.{ok, put, with_tokens, World, escrow}
use neuralmesh.Solana.Sample.{sample, token_transfer, set_amount, Ledger, credit, address}
use neuralmesh.Solana.State.{cancelled, locked, open_escrow, Bytes, Pubkey}

abbrev uuid : Bytes
uuid = bytes "123e4567-e89b-42d3-a456-426614174000"

abbrev create_ctx : CreateEscrow
create_ctx = record {
  config = config_key;
  escrow = escrow_key;
  consumer = 5;
  provider = 6;
  consumer_token_account = 20;
  provider_token_account = 21;
  vault = vault_key;
  nmc_mint = 1;
}

sample_refuses :
    (seed : Bytes) → 32 < length seed → sample.find_pda (bytes "escrow" ∷ seed ∷ []) ≡ none
sample_refuses seed h = ground arith

abbrev locked_world : World sample
locked_world =
    put escrow_key (escrow (record sample_escrow { deadline = pos 3800; state = locked }))
      (world_with open_escrow)

lock_ok :
    lock_escrow (record { escrow = escrow_key; provider = 6 }) (world_with open_escrow)
    ≡ ok locked_world
unfolding lock_escrow check_escrow_pda add_i64 ◌+ℤ◌
lock_ok = refl

-- Signer 8 sends the consumer's money to account 30.
abbrev cancel_ctx : CancelEscrow
cancel_ctx = record {
  config = config_key;
  escrow = escrow_key;
  vault = vault_key;
  consumer_token_account = 30;
  signer = 8;
}

abbrev cancelled_tokens : Ledger
cancelled_tokens = set_amount (set_amount sample_tokens vault_key 0) 30 1000

can_cancel :
    CanCancel cancel_ctx (world_with open_escrow) sample_config sample_escrow cancelled_tokens
unfolding token_transfer
can_cancel = record {
  has_config = refl;
  has_escrow = refl;
  config_address = refl;
  id_in_range = omega arith;
  escrow_address = refl;
  vault_exists = λ e. cc e;
  target_exists = λ e. cc e;
  is_live = inl refl;
  pays = refl;
}

abbrev cancelled_world : World sample
cancelled_world =
    put escrow_key (escrow (record sample_escrow { state = cancelled }))
      (with_tokens cancelled_tokens (world_with open_escrow))

cancel_by_stranger_example : cancel_escrow cancel_ctx (world_with open_escrow) ≡ ok cancelled_world
cancel_by_stranger_example =
    cancel_by_stranger cancel_ctx (world_with open_escrow) sample_config sample_escrow
      cancelled_tokens can_cancel (omega arith) (omega arith) (omega arith)

abbrev provider_key : Pubkey
provider_key = address 1 (bytes "provider" ∷ (6 ∷ []) ∷ [])

abbrev register_ctx : RegisterProvider
register_ctx = record {
  config = config_key;
  provider_record = provider_key;
  provider = 6;
  nft_mint = 1;
  provider_nft_account = 40;
  nft_metadata = 41;
  nft_master_edition = 42;
}

abbrev registration : Registration
registration = record {
  gpu_vendor = bytes "apple";
  gpu_model = bytes "M4 Max";
  memory_gb = 64;
  gpu_cores = 40;
  attestation_commitment = [];
  ed25519_pubkey = [];
  dil3_pubkey_hash = [];
  metadata_uri = [];
}

abbrev registered_world : World sample
registered_world =
    unfold register_provider mint_nft credit padded in
    from_ok initialized (register_provider register_ctx registration initialized)

register_ok : register_provider register_ctx registration initialized ≡ ok registered_world
unfolding register_provider mint_nft credit padded genesis
register_ok = refl
