-- ===== src/Solana/Escrow/Life.antt =====
-- The four escrow instructions of contracts/solana/programs/neuralmesh/src/lib.rs move an escrow along
-- the edges of its state machine and leave every other account alone.
use neuralmesh.Common.{arith, ℕ, ◌≡◌}
use neuralmesh.Solana.Escrow.{
  release_escrow, CreateEscrow, lock_escrow, CancelEscrow, release_accounts, cancel_accounts,
  cancel_escrow, ReleaseEscrow, create_escrow, LockEscrow,
}
use neuralmesh.Solana.Life.{Follows}
use neuralmesh.Solana.Runtime.{ok, Runtime, World}
use neuralmesh.Solana.State.{Bytes, Pubkey}

module _ {R : Runtime} where
  pub create_escrow-Follows :
      (ctx : CreateEscrow) (job_id : Bytes) (amount price duration : ℕ) (w w' : World R)
      → create_escrow ctx job_id amount price duration w ≡ ok w'
      → (k : Pubkey) → Follows (w.accounts k) (w'.accounts k)
  unfolding create_escrow
  create_escrow-Follows ctx job_id amount price duration w w' h k = ground arith

  pub lock_escrow-Follows :
      (ctx : LockEscrow) (w w' : World R)
      → lock_escrow ctx w ≡ ok w'
      → (k : Pubkey) → Follows (w.accounts k) (w'.accounts k)
  unfolding lock_escrow
  lock_escrow-Follows ctx w w' h k = ground arith

  pub release_escrow-Follows :
      (ctx : ReleaseEscrow) (cost : ℕ) (w w' : World R)
      → release_escrow ctx cost w ≡ ok w'
      → (k : Pubkey) → Follows (w.accounts k) (w'.accounts k)
  unfolding release_escrow release_accounts
  release_escrow-Follows ctx cost w w' h k = ground arith

  pub cancel_escrow-Follows :
      (ctx : CancelEscrow) (w w' : World R)
      → cancel_escrow ctx w ≡ ok w'
      → (k : Pubkey) → Follows (w.accounts k) (w'.accounts k)
  unfolding cancel_escrow cancel_accounts
  cancel_escrow-Follows ctx w w' h k = ground arith
