-- ===== src/Solana/Escrow/Cancel.antt =====
-- `cancel_escrow` of contracts/solana/programs/neuralmesh/src/lib.rs.
use neuralmesh.Common.{◌≤◌, [], ◌≡◌, none, arith, ◌⊎◌, ◌≢◌, ◌∷◌, some, length, take}
use neuralmesh.Common.Text.{bytes}
use neuralmesh.Solana.Bridge.{config_seeds}
use neuralmesh.Solana.Escrow.{CancelEscrow, cancel_accounts, cancel_escrow}
use neuralmesh.Solana.Runtime.{put, Runtime, escrow, config, ok, with_tokens, update, World}
use neuralmesh.Solana.State.{ProgramConfig, cancelled, JobEscrow, locked, open_escrow}
use neuralmesh.Solana.Tokens.{transfer-Moves, TransferLaws, Moves}

module _ {R : Runtime} (ctx : CancelEscrow) (w : World R) (esc : JobEscrow)
    (has_escrow : w.accounts ctx.escrow ≡ some (escrow esc)) where
  -- A successful cancel finds the escrow open or locked, moves the whole locked amount from the vault
  -- to the token account that the call names, and leaves the escrow cancelled.
  pub cancel-pays :
      (laws : TransferLaws R) (w' : World R)
      → ctx.vault ≢ ctx.consumer_token_account
      → cancel_escrow ctx w ≡ ok w'
      → ((esc.state ≡ open_escrow) ⊎ (esc.state ≡ locked))
        × Moves R ctx.vault ctx.consumer_token_account esc.locked_nmc w.tokens w'.tokens
        × (w'.accounts ≡ update w.accounts ctx.escrow (escrow (record esc { state = cancelled })))
  unfolding cancel_escrow cancel_accounts
  cancel-pays laws w' apart h = (
    ground arith,
    transfer-Moves laws ctx.vault ctx.consumer_token_account ctx.escrow esc.locked_nmc w.tokens
        w'.tokens apart (ground arith),
    ground arith,
  )

-- The escrow has a valid address and the accounts of the call exist; nothing is said of the signer.
pub record CanCancel {R : Runtime} (ctx : CancelEscrow) (w : World R) (cfg : ProgramConfig)
    (esc : JobEscrow) (tokens : R.Tokens) : Type 0 where
  pub has_config : w.accounts ctx.config ≡ some (config cfg)
  pub has_escrow : w.accounts ctx.escrow ≡ some (escrow esc)
  pub config_address : R.create_pda config_seeds cfg.bump ≡ some ctx.config
  pub id_in_range : esc.job_id_len ≤ length esc.job_id
  pub escrow_address :
      R.create_pda (bytes "escrow" ∷ take esc.job_id_len esc.job_id ∷ []) esc.bump ≡ some ctx.escrow
  pub vault_exists : R.token_account ctx.vault w.tokens ≢ none
  pub target_exists : R.token_account ctx.consumer_token_account w.tokens ≢ none
  pub is_live : (esc.state ≡ open_escrow) ⊎ (esc.state ≡ locked)
  pub pays :
      R.transfer ctx.vault ctx.consumer_token_account ctx.escrow esc.locked_nmc w.tokens
      ≡ some tokens

module _ {R : Runtime} (ctx : CancelEscrow) (w : World R) (cfg : ProgramConfig) (esc : JobEscrow)
    (tokens : R.Tokens) where
  -- A stranger can cancel: with a signer who is neither the consumer nor the authority, and a target
  -- that is not the consumer's token account, the call succeeds and pays the locked amount to that
  -- target.
  pub cancel_by_stranger :
      CanCancel ctx w cfg esc tokens
      → ctx.signer ≢ esc.consumer
      → ctx.signer ≢ cfg.authority
      → ctx.consumer_token_account ≢ esc.consumer_token_account
      → cancel_escrow ctx w
        ≡ ok (put ctx.escrow (escrow (record esc { state = cancelled })) (with_tokens tokens w))
  unfolding cancel_escrow cancel_accounts
  cancel_by_stranger c s a t = ground arith
