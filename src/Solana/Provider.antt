-- ===== src/Solana/Provider.antt =====
-- `register_provider` and `revoke_provider` of contracts/solana/programs/neuralmesh/src/lib.rs.
pub mod Life
pub mod Once
use neuralmesh.Common.{ℕ, ◌-◌, true, false, not, some, [], ◌∷◌, ◌++◌, leb, ◌==◌, length, replicate}
use neuralmesh.Common.Text.{bytes}
use neuralmesh.Solana.Bridge.{config_seeds}
use neuralmesh.Solana.Runtime.{
  Result, ok, ◌>>=◌, ◌>>◌, require, constrain, call, Runtime, World, provider, as_config,
  as_provider, put, with_tokens, emit, init_pda, check_pda,
}
use neuralmesh.Solana.State.{
  Pubkey, Bytes, unauthorized, provider_revoked, vendor_too_long, model_too_long,
  provider_registered_event, provider_revoked_event,
}

pub record RegisterProvider : Type 0 where
  pub config : Pubkey
  pub provider_record : Pubkey
  pub provider : Pubkey
  pub nft_mint : Pubkey
  pub provider_nft_account : Pubkey
  pub nft_metadata : Pubkey
  pub nft_master_edition : Pubkey

pub record RevokeProvider : Type 0 where
  pub config : Pubkey
  pub provider_record : Pubkey
  pub authority : Pubkey

-- The arguments of `register_provider`.
pub record Registration : Type 0 where
  pub gpu_vendor : Bytes
  pub gpu_model : Bytes
  pub memory_gb : ℕ
  pub gpu_cores : ℕ
  pub attestation_commitment : Bytes
  pub ed25519_pubkey : Bytes
  pub dil3_pubkey_hash : Bytes
  pub metadata_uri : Bytes

-- `[0u8; n]` with the bytes copied to its front.
unfoldable pub padded : ℕ → Bytes → Bytes
padded n xs = xs ++ replicate (n - length xs) 0

-- The calls of the token program and of Metaplex, in order.
unfoldable pub mint_nft :
    (R : Runtime) → RegisterProvider → Registration → R.Tokens → Result R.Tokens
mint_nft R ctx args t = do
  minted ← call (R.mint_to ctx.nft_mint ctx.provider_nft_account ctx.config 1 t)
  described ← call (
      R.create_metadata ctx.nft_metadata ctx.nft_mint ctx.config ctx.provider
        (record {
          name = bytes "NM-GPU " ++ args.gpu_model;
          symbol = bytes "NM-GPU";
          uri = args.metadata_uri;
          seller_fee_basis_points = 0;
          creator = ctx.config;
          creator_share = 100;
        })
        minted)
  edition ← call (
      R.create_master_edition ctx.nft_master_edition ctx.nft_mint ctx.config ctx.provider
        ctx.nft_metadata (some 0) described)
  call (
      R.freeze_delegated ctx.config ctx.provider_nft_account ctx.nft_master_edition ctx.nft_mint
        edition)

module _ {R : Runtime} where
  -- The record of a fresh account is zeroed, so its `revoked` is false when the body tests it.
  unfoldable pub register_provider : RegisterProvider → Registration → World R → Result (World R)
  unfolding padded mint_nft
  register_provider ctx args w = do
    cfg ← as_config (w.accounts ctx.config)
    bump ← init_pda (bytes "provider" ∷ R.key_bytes ctx.provider ∷ []) ctx.provider_record w
    constrain (R.is_mint ctx.nft_mint w.tokens)
    opened ←
        call
          (R.init_associated_if_needed ctx.provider_nft_account ctx.nft_mint ctx.provider w.tokens)
    check_pda R config_seeds cfg.bump ctx.config
    require (leb (length args.gpu_vendor) 32) vendor_too_long
    require (leb (length args.gpu_model) 64) model_too_long
    require (not false) provider_revoked
    now ← call w.clock
    tokens ← mint_nft R ctx args opened
    ok (
        emit
          (provider_registered_event ctx.provider ctx.nft_mint args.gpu_vendor args.gpu_model
            args.attestation_commitment)
          (put ctx.provider_record
            (provider (record {
              provider = ctx.provider;
              nft_mint = ctx.nft_mint;
              gpu_vendor = padded 32 args.gpu_vendor;
              gpu_model = padded 64 args.gpu_model;
              memory_gb = args.memory_gb;
              gpu_cores = args.gpu_cores;
              attestation_commitment = args.attestation_commitment;
              ed25519_pubkey = args.ed25519_pubkey;
              dil3_pubkey_hash = args.dil3_pubkey_hash;
              jobs_completed = 0;
              nmc_earned = 0;
              trust_score_milli = 2500;
              registered_at = now;
              revoked = false;
              bump = bump;
            }))
            (with_tokens tokens w)))

  unfoldable pub revoke_provider : RevokeProvider → World R → Result (World R)
  revoke_provider ctx w = do
    cfg ← as_config (w.accounts ctx.config)
    rec ← as_provider (w.accounts ctx.provider_record)
    check_pda R config_seeds cfg.bump ctx.config
    require (cfg.authority == ctx.authority) unauthorized
    ok (
        emit (provider_revoked_event rec.provider rec.nft_mint)
          (put ctx.provider_record (provider (record rec { revoked = true })) w))
