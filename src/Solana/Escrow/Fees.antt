-- ===== src/Solana/Escrow/Fees.antt =====
-- The arithmetic of a settlement: `split_payment` of the lines that compute the fee in
-- contracts/solana/programs/neuralmesh/src/lib.rs.
-- The three parts make up the locked amount, and the fee is the floor of its share.
use neuralmesh.Common.{◌+◌, ◌^◌, ◌≤◌, ◌≡◌, ◌/◌, ◌*◌, arith, ◌↔◌, ℕ}
use neuralmesh.Solana.Escrow.{Split, split_payment}
use neuralmesh.Solana.Runtime.{panic, err, ok}
use neuralmesh.Solana.State.{ProgramConfig, JobEscrow}

pub split_payment_sum :
    (cfg : ProgramConfig) (esc : JobEscrow) (cost : ℕ) {s : Split}
    → split_payment cfg esc cost ≡ ok s
    → (s.fee ≡ cost * cfg.platform_fee_bps / 10000)
      × (s.provider_amount + s.fee ≡ cost)
      × (s.provider_amount + s.fee + s.consumer_refund ≡ esc.locked_nmc)
unfolding split_payment
split_payment_sum cfg esc cost h = ground arith

-- With a capped fee the fee is at most a tenth of the cost.
pub fee-le : (cost bps : ℕ) → bps ≤ 1000 → cost * bps / 10000 * 10 ≤ cost
fee-le cost bps h = let step : cost * bps ≤ cost * 1000 = grind arith in omega (arith, step)

pub fee-le-cost : (cost bps : ℕ) → bps ≤ 10000 → cost * bps / 10000 ≤ cost
fee-le-cost cost bps h = let step : cost * bps ≤ cost * 10000 = grind arith in omega (arith, step)

-- Under the cap on the fee and the guard of `release_escrow`, the only `unwrap` that can panic is the
-- multiplication, and it does so exactly when the product leaves 64 bits.
pub split_payment_panics :
    (cfg : ProgramConfig) (esc : JobEscrow) (cost : ℕ)
    → cfg.platform_fee_bps ≤ 1000
    → cost ≤ esc.locked_nmc
    → (split_payment cfg esc cost ≡ err panic) ↔ (2 ^ 64 ≤ cost * cfg.platform_fee_bps)
unfolding split_payment
split_payment_panics cfg esc cost cap guard =
    (λ h. ground (arith, fee-le-cost cost cfg.platform_fee_bps), λ h. ground arith)
