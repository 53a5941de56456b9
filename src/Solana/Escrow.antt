-- ===== src/Solana/Escrow.antt =====
-- `create_escrow`, `lock_escrow`, `release_escrow` and `cancel_escrow` of
-- contracts/solana/programs/neuralmesh/src/lib.rs with their account contexts.
pub mod Fees
pub mod Settlement
pub mod Life
pub mod Cancel
pub mod Deposit
use neuralmesh.Common.{
  ℕ, ◌/◌, ◌%◌, ◌^◌, Bool, true, false, ◌||◌, ◌&&◌, [], ◌∷◌, ltb, leb, ◌==◌, if◌then◌else◌, length,
}
use neuralmesh.Common.Int.{ℤ, pos, ◌+ℤ◌, ◌-ℤ◌, leb_ℤ}
use neuralmesh.Common.Text.{bytes}
use neuralmesh.Solana.Bridge.{config_seeds}
use neuralmesh.Solana.Provider.{padded}
use neuralmesh.Solana.Runtime.{
  Result, ok, ◌>>=◌, ◌>>◌, require, constrain, call, checked_mul, checked_sub, slice_to, Runtime,
  World, escrow, as_config, as_escrow, present, put, with_tokens, emit, init_pda, check_pda,
}
use neuralmesh.Solana.State.{
  Pubkey, Bytes, ProgramConfig, EscrowState, open_escrow, locked, settled, cancelled, JobEscrow,
  unauthorized, escrow_not_open, escrow_not_locked, cost_exceeds_locked, job_id_too_long,
  escrow_created_event, escrow_settled_event,
}

pub record CreateEscrow : Type 0 where
  pub config : Pubkey
  pub escrow : Pubkey
  pub consumer : Pubkey
  pub provider : Pubkey
  pub consumer_token_account : Pubkey
  pub provider_token_account : Pubkey
  pub vault : Pubkey
  pub nmc_mint : Pubkey

pub record LockEscrow : Type 0 where
  pub escrow : Pubkey
  pub provider : Pubkey

pub record ReleaseEscrow : Type 0 where
  pub config : Pubkey
  pub escrow : Pubkey
  pub vault : Pubkey
  pub provider_token_account : Pubkey
  pub consumer_token_account : Pubkey
  pub fee_collector : Pubkey
  pub authority : Pubkey

pub record CancelEscrow : Type 0 where
  pub config : Pubkey
  pub escrow : Pubkey
  pub vault : Pubkey
  pub consumer_token_account : Pubkey
  pub signer : Pubkey

abbrev pub is_open : EscrowState → Bool
is_open open_escrow = true
is_open _ = false

abbrev pub is_locked : EscrowState → Bool
is_locked locked = true
is_locked _ = false

-- `now + secs as i64`, which wraps: the second operand is not negative.
unfoldable pub add_i64 : ℤ → ℕ → ℤ
add_i64 a b = let s = a +ℤ pos b in if leb_ℤ (pos (2 ^ 63)) s then s -ℤ pos (2 ^ 64) else s

-- The split of a locked amount: fee, share of the provider, refund of the consumer.
pub record Split : Type 0 where
  pub fee : ℕ
  pub provider_amount : ℕ
  pub consumer_refund : ℕ

unfoldable pub split_payment : ProgramConfig → JobEscrow → ℕ → Result Split
split_payment cfg esc actual_cost = do
  product ← checked_mul actual_cost cfg.platform_fee_bps
  let fee = product / 10000
  provider_amount ← checked_sub actual_cost fee
  consumer_refund ← checked_sub esc.locked_nmc actual_cost
  ok (record { fee = fee; provider_amount = provider_amount; consumer_refund = consumer_refund })

unfoldable pub transfer_if_positive :
    (R : Runtime) → Pubkey → Pubkey → Pubkey → ℕ → R.Tokens → Result R.Tokens
transfer_if_positive R from to authority amount t =
    if ltb 0 amount then call (R.transfer from to authority amount t) else ok t

-- The three transfers out of the vault, each only of a positive amount.
unfoldable pub pay_out : (R : Runtime) → ReleaseEscrow → Split → R.Tokens → Result R.Tokens
unfolding transfer_if_positive
pay_out R ctx s t = do
  paid ← transfer_if_positive R ctx.vault ctx.provider_token_account ctx.escrow s.provider_amount t
  collected ← transfer_if_positive R ctx.vault ctx.fee_collector ctx.escrow s.fee paid
  transfer_if_positive R ctx.vault ctx.consumer_token_account ctx.escrow s.consumer_refund collected

module _ {R : Runtime} where
  -- `seeds = [b"escrow", &escrow.job_id[..escrow.job_id_len as usize]], bump = escrow.bump`
  unfoldable pub check_escrow_pda : JobEscrow → Pubkey → World R → Result (Unit {0})
  check_escrow_pda esc k w = do
    job_id_bytes ← slice_to esc.job_id esc.job_id_len
    check_pda R (bytes "escrow" ∷ job_id_bytes ∷ []) esc.bump k

  unfoldable pub create_escrow : CreateEscrow → Bytes → ℕ → ℕ → ℕ → World R → Result (World R)
  create_escrow ctx job_id locked_nmc price_per_hour max_duration_secs w = do
    cfg ← as_config (w.accounts ctx.config)
    bump ← init_pda (bytes "escrow" ∷ job_id ∷ []) ctx.escrow w
    consumer_account ← present (R.token_account ctx.consumer_token_account w.tokens)
    _ ← init_pda (bytes "vault" ∷ job_id ∷ []) ctx.vault w
    opened ← call (R.init_token_account ctx.vault ctx.nmc_mint ctx.escrow w.tokens)
    constrain (R.is_mint ctx.nmc_mint w.tokens)
    check_pda R config_seeds cfg.bump ctx.config
    constrain (consumer_account.mint == cfg.nmc_mint && consumer_account.owner == ctx.consumer)
    constrain (ctx.nmc_mint == cfg.nmc_mint)
    require (leb (length job_id) 64) job_id_too_long
    now ← call w.clock
    tokens ← call (R.transfer ctx.consumer_token_account ctx.vault ctx.consumer locked_nmc opened)
    ok (
        emit (escrow_created_event job_id ctx.consumer ctx.provider locked_nmc) (
          put ctx.escrow
            (escrow (record {
              job_id = padded 64 job_id;
              job_id_len = length job_id % 256;
              consumer = ctx.consumer;
              provider = ctx.provider;
              locked_nmc = locked_nmc;
              price_per_hour = price_per_hour;
              max_duration_secs = max_duration_secs;
              deadline = pos 0;
              state = open_escrow;
              actual_cost = 0;
              consumer_token_account = ctx.consumer_token_account;
              provider_token_account = ctx.provider_token_account;
              vault = ctx.vault;
              fee_collected = 0;
              created_at = now;
              settled_at = pos 0;
              bump = bump;
            }))
            (with_tokens tokens w)))

  unfoldable pub lock_escrow : LockEscrow → World R → Result (World R)
  unfolding check_escrow_pda
  lock_escrow ctx w = do
    esc ← as_escrow (w.accounts ctx.escrow)
    check_escrow_pda esc ctx.escrow w
    require (esc.provider == ctx.provider) unauthorized
    require (is_open esc.state) escrow_not_open
    now ← call w.clock
    ok (
        put ctx.escrow
          (escrow (record esc { deadline = add_i64 now esc.max_duration_secs; state = locked })) w)

  unfoldable pub release_accounts : ReleaseEscrow → World R → Result (ProgramConfig × JobEscrow)
  unfolding check_escrow_pda
  release_accounts ctx w = do
    cfg ← as_config (w.accounts ctx.config)
    esc ← as_escrow (w.accounts ctx.escrow)
    _ ← present (R.token_account ctx.vault w.tokens)
    _ ← present (R.token_account ctx.provider_token_account w.tokens)
    _ ← present (R.token_account ctx.consumer_token_account w.tokens)
    _ ← present (R.token_account ctx.fee_collector w.tokens)
    check_pda R config_seeds cfg.bump ctx.config
    require (cfg.authority == ctx.authority) unauthorized
    check_escrow_pda esc ctx.escrow w
    constrain (ctx.fee_collector == cfg.fee_collector)
    ok (cfg, esc)

  unfoldable pub release_escrow : ReleaseEscrow → ℕ → World R → Result (World R)
  release_escrow ctx actual_cost w = do
    (cfg, esc) ← release_accounts ctx w
    require (is_locked esc.state) escrow_not_locked
    require (leb actual_cost esc.locked_nmc) cost_exceeds_locked
    s ← split_payment cfg esc actual_cost
    _ ← slice_to esc.job_id esc.job_id_len
    tokens ← pay_out R ctx s w.tokens
    now ← call w.clock
    ok (
        emit (escrow_settled_event esc.provider esc.consumer actual_cost s.fee s.consumer_refund) (
          put ctx.escrow
            (escrow (record esc {
              actual_cost = actual_cost;
              fee_collected = s.fee;
              state = settled;
              settled_at = now;
            }))
            (with_tokens tokens w)))

  unfoldable pub cancel_accounts : CancelEscrow → World R → Result JobEscrow
  unfolding check_escrow_pda
  cancel_accounts ctx w = do
    cfg ← as_config (w.accounts ctx.config)
    esc ← as_escrow (w.accounts ctx.escrow)
    _ ← present (R.token_account ctx.vault w.tokens)
    _ ← present (R.token_account ctx.consumer_token_account w.tokens)
    check_pda R config_seeds cfg.bump ctx.config
    check_escrow_pda esc ctx.escrow w
    ok esc

  unfoldable pub cancel_escrow : CancelEscrow → World R → Result (World R)
  cancel_escrow ctx w = do
    esc ← cancel_accounts ctx w
    require (is_open esc.state || is_locked esc.state) escrow_not_open
    _ ← slice_to esc.job_id esc.job_id_len
    tokens ←
        call (R.transfer ctx.vault ctx.consumer_token_account ctx.escrow esc.locked_nmc w.tokens)
    ok (put ctx.escrow (escrow (record esc { state = cancelled })) (with_tokens tokens w))
