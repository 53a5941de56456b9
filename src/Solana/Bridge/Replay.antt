-- ===== src/Solana/Bridge/Replay.antt =====
-- `bridge_mint` of contracts/solana/programs/neuralmesh/src/lib.rs: its limit, its total and its nonce.
use neuralmesh.Common.{ℕ, some, ◌≤◌, ◌≢◌, ◌≡◌, ◌<◌, ◌+◌, ◌^◌, arith}
use neuralmesh.Solana.Bridge.{BridgeMint, bridge_mint}
use neuralmesh.Solana.Runtime.{World, nonce, config, ok, Runtime}
use neuralmesh.Solana.State.{BridgeNonce, ProgramConfig}

module _ {R : Runtime} (ctx : BridgeMint) (amount n : ℕ) (w w' : World R) (cfg : ProgramConfig)
    (nonce_acc : BridgeNonce) (has_config : w.accounts ctx.config ≡ some (config cfg))
    (has_nonce : w.accounts ctx.bridge_nonce ≡ some (nonce nonce_acc))
    (minted : bridge_mint ctx amount n w ≡ ok w') where
  -- A successful `bridge_mint` was signed by the authority of the configuration, for an amount within
  -- the limit and with the expected nonce. The tokens went to the token account that the call names, the
  -- total has grown by the amount without wrapping, and the next nonce is one higher.
  pub bridge_mint-eq-ok :
      (cfg.authority ≡ ctx.authority)
      × (amount ≤ cfg.bridge_mint_limit)
      × (n ≡ nonce_acc.next_nonce)
      × (R.mint_to ctx.nmc_mint ctx.recipient_token_account ctx.config amount w.tokens
          ≡ some w'.tokens)
      × (w'.accounts ctx.config
          ≡ some (config (record cfg { total_minted = cfg.total_minted + amount })))
      × (cfg.total_minted + amount < 2 ^ 64)
      × (w'.accounts ctx.bridge_nonce ≡ some (nonce (record nonce_acc { next_nonce = n + 1 })))
  unfolding bridge_mint
  bridge_mint-eq-ok = ground arith

module _ {R : Runtime} (ctx ctx' : BridgeMint) (amount amount' n : ℕ) (w w' w'' : World R) where
  -- A nonce serves once: after a successful `bridge_mint` a second call with the same nonce and the
  -- same nonce account fails, whatever else it asks for.
  pub bridge_mint_no_replay :
      bridge_mint ctx amount n w ≡ ok w'
      → ctx'.bridge_nonce ≡ ctx.bridge_nonce
      → bridge_mint ctx' amount' n w' ≢ ok w''
  unfolding bridge_mint
  bridge_mint_no_replay first same second = ground arith

module _ {R : Runtime} (ctx : BridgeMint) (amount n : ℕ) (w w' : World R) where
  -- `bridge_mint` finds a nonce account.
  pub bridge_mint_needs_nonce :
      bridge_mint ctx amount n w ≡ ok w'
      → (acc : BridgeNonce) × (w.accounts ctx.bridge_nonce ≡ some (nonce acc))
  unfolding bridge_mint
  bridge_mint_needs_nonce h = ground arith
