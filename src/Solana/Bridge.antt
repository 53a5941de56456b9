-- ===== src/Solana/Bridge.antt =====
-- The configuration and the bridge: `initialize`, `bridge_mint`, `bridge_burn` and `update_config` of
-- contracts/solana/programs/neuralmesh/src/lib.rs with their account contexts. Anchor loads the
-- accounts in order, then checks their constraints in order, then runs the body.
pub mod Life
pub mod Replay
use neuralmesh.Common.{ℕ, Option, none, some, List, [], ◌∷◌, leb, ◌==◌, ◌&&◌}
use neuralmesh.Common.Text.{bytes}
use neuralmesh.Solana.Runtime.{
  Result, ok, ◌>>=◌, ◌>>◌, require, constrain, call, checked_add, Runtime, World, config, nonce,
  as_config, as_nonce, present, put, with_tokens, emit, init_pda, check_pda,
}
use neuralmesh.Solana.State.{
  Pubkey, Bytes, ProgramConfig, BridgeNonce, unauthorized, mint_limit_exceeded, fee_too_high,
  bridge_mint_event, bridge_burn_event,
}

-- Max platform fee: 10%.
abbrev pub max_fee_bps : ℕ
max_fee_bps = 1000

abbrev pub config_seeds : List Bytes
config_seeds = bytes "config" ∷ []

pub record Initialize : Type 0 where
  pub config : Pubkey
  pub authority : Pubkey
  pub nmc_mint : Pubkey
  pub fee_collector : Pubkey

pub record BridgeMint : Type 0 where
  pub config : Pubkey
  pub nmc_mint : Pubkey
  pub recipient_token_account : Pubkey
  pub recipient : Pubkey
  pub bridge_nonce : Pubkey
  pub authority : Pubkey

pub record BridgeBurn : Type 0 where
  pub config : Pubkey
  pub nmc_mint : Pubkey
  pub user_token_account : Pubkey
  pub user : Pubkey

pub record UpdateConfig : Type 0 where
  pub config : Pubkey
  pub authority : Pubkey

unfoldable pub set_fee : Option ℕ → ProgramConfig → Result ProgramConfig
set_fee none cfg = ok cfg
set_fee (some fee) cfg = do
  require (leb fee max_fee_bps) fee_too_high
  ok (record cfg { platform_fee_bps = fee })

unfoldable pub set_limit : Option ℕ → ProgramConfig → ProgramConfig
set_limit none cfg = cfg
set_limit (some limit) cfg = record cfg { bridge_mint_limit = limit }

module _ {R : Runtime} where
  -- `init` has zeroed the fields that the body does not set.
  unfoldable pub initialize : Initialize → ℕ → ℕ → World R → Result (World R)
  initialize ctx platform_fee_bps bridge_mint_limit w = do
    bump ← init_pda config_seeds ctx.config w
    constrain (R.is_mint ctx.nmc_mint w.tokens)
    require (leb platform_fee_bps max_fee_bps) fee_too_high
    ok (
        put ctx.config
          (config (record {
            authority = ctx.authority;
            nmc_mint = ctx.nmc_mint;
            platform_fee_bps = platform_fee_bps;
            fee_collector = ctx.fee_collector;
            bridge_mint_limit = bridge_mint_limit;
            total_minted = 0;
            total_burned = 0;
            bump = bump;
          }))
          w)

  -- The constraints of `BridgeMint`: what is loaded are the configuration and the nonce.
  unfoldable pub bridge_mint_accounts : BridgeMint → World R → Result (ProgramConfig × BridgeNonce)
  bridge_mint_accounts ctx w = do
    cfg ← as_config (w.accounts ctx.config)
    constrain (R.is_mint ctx.nmc_mint w.tokens)
    _ ← present (R.token_account ctx.recipient_token_account w.tokens)
    nonce_acc ← as_nonce (w.accounts ctx.bridge_nonce)
    check_pda R config_seeds cfg.bump ctx.config
    require (cfg.authority == ctx.authority) unauthorized
    constrain (ctx.nmc_mint == cfg.nmc_mint)
    check_pda R (bytes "bridge_nonce" ∷ R.key_bytes ctx.authority ∷ []) nonce_acc.bump
        ctx.bridge_nonce
    require (nonce_acc.authority == ctx.authority) unauthorized
    ok (cfg, nonce_acc)

  unfoldable pub bridge_mint : BridgeMint → ℕ → ℕ → World R → Result (World R)
  unfolding bridge_mint_accounts
  bridge_mint ctx amount n w = do
    (cfg, nonce_acc) ← bridge_mint_accounts ctx w
    require (leb amount cfg.bridge_mint_limit) mint_limit_exceeded
    require (n == nonce_acc.next_nonce) unauthorized
    next ← checked_add n 1
    tokens ← call (R.mint_to ctx.nmc_mint ctx.recipient_token_account ctx.config amount w.tokens)
    total ← checked_add cfg.total_minted amount
    ok (
        emit (bridge_mint_event ctx.recipient amount n) (
          put ctx.bridge_nonce (nonce (record nonce_acc { next_nonce = next }))
            (put ctx.config (config (record cfg { total_minted = total })) (with_tokens tokens w))))

  unfoldable pub bridge_burn_accounts : BridgeBurn → World R → Result ProgramConfig
  bridge_burn_accounts ctx w = do
    cfg ← as_config (w.accounts ctx.config)
    constrain (R.is_mint ctx.nmc_mint w.tokens)
    user_token_account ← present (R.token_account ctx.user_token_account w.tokens)
    check_pda R config_seeds cfg.bump ctx.config
    constrain (ctx.nmc_mint == cfg.nmc_mint)
    constrain (user_token_account.mint == ctx.nmc_mint && user_token_account.owner == ctx.user)
    ok cfg

  unfoldable pub bridge_burn : BridgeBurn → ℕ → World R → Result (World R)
  unfolding bridge_burn_accounts
  bridge_burn ctx amount w = do
    cfg ← bridge_burn_accounts ctx w
    tokens ← call (R.burn ctx.nmc_mint ctx.user_token_account ctx.user amount w.tokens)
    total ← checked_add cfg.total_burned amount
    ok (
        emit (bridge_burn_event ctx.user amount)
          (put ctx.config (config (record cfg { total_burned = total })) (with_tokens tokens w)))

  unfoldable pub update_config : UpdateConfig → Option ℕ → Option ℕ → World R → Result (World R)
  unfolding set_fee set_limit
  update_config ctx platform_fee_bps bridge_mint_limit w = do
    cfg ← as_config (w.accounts ctx.config)
    check_pda R config_seeds cfg.bump ctx.config
    require (cfg.authority == ctx.authority) unauthorized
    with_fee ← set_fee platform_fee_bps cfg
    ok (put ctx.config (config (set_limit bridge_mint_limit with_fee)) w)
