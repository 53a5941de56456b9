-- ===== src/Solana/Provider/Life.antt =====
-- `register_provider` and `revoke_provider` of contracts/solana/programs/neuralmesh/src/lib.rs keep to
-- the life of an account.
use neuralmesh.Common.{arith, ◌≡◌}
use neuralmesh.Solana.Life.{Follows}
use neuralmesh.Solana.Provider.{
  revoke_provider, RevokeProvider, RegisterProvider, register_provider, Registration,
}
use neuralmesh.Solana.Runtime.{ok, Runtime, World}
use neuralmesh.Solana.State.{Pubkey}

module _ {R : Runtime} where
  pub register_provider-Follows :
      (ctx : RegisterProvider) (args : Registration) (w w' : World R)
      → register_provider ctx args w ≡ ok w'
      → (k : Pubkey) → Follows (w.accounts k) (w'.accounts k)
  unfolding register_provider
  register_provider-Follows ctx args w w' h k = ground arith

  pub revoke_provider-Follows :
      (ctx : RevokeProvider) (w w' : World R)
      → revoke_provider ctx w ≡ ok w'
      → (k : Pubkey) → Follows (w.accounts k) (w'.accounts k)
  unfolding revoke_provider
  revoke_provider-Follows ctx w w' h k = ground arith
