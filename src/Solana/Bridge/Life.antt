-- ===== src/Solana/Bridge/Life.antt =====
-- The configuration and bridge instructions of contracts/solana/programs/neuralmesh/src/lib.rs keep to
-- the life of an account.
use neuralmesh.Common.{arith, ℕ, ◌≡◌, Option}
use neuralmesh.Solana.Bridge.{
  update_config, bridge_burn, bridge_mint, BridgeMint, Initialize, UpdateConfig, BridgeBurn,
  initialize,
}
use neuralmesh.Solana.Life.{Follows}
use neuralmesh.Solana.Runtime.{ok, Runtime, World}
use neuralmesh.Solana.State.{Pubkey}

module _ {R : Runtime} where
  pub initialize-Follows :
      (ctx : Initialize) (fee limit : ℕ) (w w' : World R)
      → initialize ctx fee limit w ≡ ok w'
      → (k : Pubkey) → Follows (w.accounts k) (w'.accounts k)
  unfolding initialize
  initialize-Follows ctx fee limit w w' h k = ground arith

  pub bridge_mint-Follows :
      (ctx : BridgeMint) (amount n : ℕ) (w w' : World R)
      → bridge_mint ctx amount n w ≡ ok w'
      → (k : Pubkey) → Follows (w.accounts k) (w'.accounts k)
  unfolding bridge_mint
  bridge_mint-Follows ctx amount n w w' h k = ground arith

  pub bridge_burn-Follows :
      (ctx : BridgeBurn) (amount : ℕ) (w w' : World R)
      → bridge_burn ctx amount w ≡ ok w'
      → (k : Pubkey) → Follows (w.accounts k) (w'.accounts k)
  unfolding bridge_burn
  bridge_burn-Follows ctx amount w w' h k = ground arith

  pub update_config-Follows :
      (ctx : UpdateConfig) (fee limit : Option ℕ) (w w' : World R)
      → update_config ctx fee limit w ≡ ok w'
      → (k : Pubkey) → Follows (w.accounts k) (w'.accounts k)
  unfolding update_config
  update_config-Follows ctx fee limit w w' h k = ground arith
