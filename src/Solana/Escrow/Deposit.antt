-- ===== src/Solana/Escrow/Deposit.antt =====
-- `create_escrow` and `lock_escrow` of contracts/solana/programs/neuralmesh/src/lib.rs.
use neuralmesh.Common.{
  arith, ◌-◌, [], ◌<◌, some, ◌≢◌, ◌∷◌, none, ℕ, ◌≡◌, take, replicate, take-append, length,
}
use neuralmesh.Common.Int.{ℤ}
use neuralmesh.Common.Text.{bytes}
use neuralmesh.Solana.Escrow.{LockEscrow, CreateEscrow, create_escrow, add_i64, lock_escrow}
use neuralmesh.Solana.Provider.{padded}
use neuralmesh.Solana.Runtime.{World, Runtime, update, ok, escrow}
use neuralmesh.Solana.State.{open_escrow, locked, JobEscrow, Bytes}

module _ {R : Runtime} (ctx : CreateEscrow) (job_id : Bytes) (amount price duration : ℕ)
    (w w' : World R) where
  -- Where the runtime refuses seeds of more than 32 bytes, as Solana does, no escrow can be created
  -- for a job id longer than 32 bytes, although the programme accepts ids of up to 64 bytes. A UUID
  -- in its usual form has 36.
  pub create_escrow_long_id :
      ((seed : Bytes) → 32 < length seed → R.find_pda (bytes "escrow" ∷ seed ∷ []) ≡ none)
      → 32 < length job_id
      → create_escrow ctx job_id amount price duration w ≢ ok w'
  unfolding create_escrow
  create_escrow_long_id refuses long h = ground (arith, refuses job_id long)

-- The number of the bytes that are kept is the length of the id, so the id can be read back.
pub take-padded : (n : ℕ) (xs : Bytes) → take (length xs) (padded n xs) ≡ xs
unfolding padded
take-padded n xs = take-append xs (replicate (n - length xs) 0)

module _ {R : Runtime} (ctx : LockEscrow) (w w' : World R) (esc : JobEscrow) (now : ℤ)
    (has_escrow : w.accounts ctx.escrow ≡ some (escrow esc)) (has_clock : w.clock ≡ some now) where
  -- Only the provider of an open escrow locks it. The deadline is then the present time plus the
  -- longest duration, and no other account changes.
  pub lock-eq-ok :
      lock_escrow ctx w ≡ ok w'
      → (esc.provider ≡ ctx.provider)
        × (esc.state ≡ open_escrow)
        × (w'.accounts
            ≡ update w.accounts ctx.escrow (
                escrow
                  (record esc { deadline = add_i64 now esc.max_duration_secs; state = locked })))
  unfolding lock_escrow
  lock-eq-ok h = ground arith
