-- ===== src/Solana/Escrow/Settlement.antt =====
-- `release_escrow` of contracts/solana/programs/neuralmesh/src/lib.rs pays the locked amount out.
use neuralmesh.Common.{
  ℕ, ◌≤◌, ◌/◌, some, arith, ◌≡◌, ◌-◌, ◌*◌, inr, inl, ◌≢◌, suc, zero, Option-cases, ◌∙◌, ◌+◌,
  ne_symm,
}
use neuralmesh.Common.Int.{ℤ}
use neuralmesh.Solana.Escrow.{
  ReleaseEscrow, Split, release_accounts, release_escrow, split_payment, pay_out,
  transfer_if_positive, is_locked,
}
use neuralmesh.Solana.Runtime.{World, config, update, escrow, ok, Runtime, >>=-eq-ok}
use neuralmesh.Solana.State.{settled, ProgramConfig, JobEscrow, locked, Pubkey}
use neuralmesh.Solana.Tokens.{TransferLaws, transfer-Moves, Moves, balance}

-- The parts of a settlement, as the fee schedule defines them.
pub split_of : ProgramConfig → JobEscrow → ℕ → Split
split_of cfg esc cost = record {
  fee = cost * cfg.platform_fee_bps / 10000;
  provider_amount = cost - cost * cfg.platform_fee_bps / 10000;
  consumer_refund = esc.locked_nmc - cost;
}

-- The escrow as a settlement leaves it.
pub settled_escrow : JobEscrow → ℕ → ℕ → ℤ → JobEscrow
settled_escrow esc cost fee now = record esc {
  actual_cost = cost;
  fee_collected = fee;
  state = settled;
  settled_at = now;
}

module _ {R : Runtime} (ctx : ReleaseEscrow) (cost : ℕ) (w w' : World R) (cfg : ProgramConfig)
    (esc : JobEscrow) (now : ℤ) (has_config : w.accounts ctx.config ≡ some (config cfg))
    (has_escrow : w.accounts ctx.escrow ≡ some (escrow esc)) (has_clock : w.clock ≡ some now)
    (released : release_escrow ctx cost w ≡ ok w') where
  -- What a successful release has checked, paid and written.
  pub release-eq-ok :
      (esc.state ≡ locked)
      × (cost ≤ esc.locked_nmc)
      × (cfg.authority ≡ ctx.authority)
      × (pay_out R ctx (split_of cfg esc cost) w.tokens ≡ ok w'.tokens)
      × (w'.accounts
          ≡ update w.accounts ctx.escrow
              (escrow (settled_escrow esc cost (split_of cfg esc cost).fee now)))
  unfolding release_escrow release_accounts split_payment split_of settled_escrow
  release-eq-ok = ground arith

pub transfer_if_positive-Moves :
    {R : Runtime} (laws : TransferLaws R) (from to authority : Pubkey) (n : ℕ) (t t' : R.Tokens)
    → from ≢ to
    → transfer_if_positive R from to authority n t ≡ ok t'
    → Moves R from to n t t'
unfolding transfer_if_positive
transfer_if_positive-Moves {R} laws from to authority zero t t' ne h =
    let same : t ≡ t' = cc in
    record {
      debited = rw (← same) (omega arith);
      credited = rw (← same) (omega arith);
      kept = λ j a b. rw (← same);
    }
transfer_if_positive-Moves {R} laws from to authority (suc n) t t' ne h =
    elim (Option-cases (R.transfer from to authority (suc n) t)) [
      | inl failed ↦ absurd (ground arith)
      | inr (u, e) ↦ transfer-Moves laws from to authority (suc n) t t' ne (ground arith)
    ]

-- The balances after a settlement: the vault has paid all parts, each recipient has its own, and
-- nobody else is touched.
pub record IsPaidOut (R : Runtime) (ctx : ReleaseEscrow) (s : Split) (t t' : R.Tokens)
    : Type 0 where
  pub from_vault :
      balance R ctx.vault t' + (s.provider_amount + s.fee + s.consumer_refund)
      ≡ balance R ctx.vault t
  pub to_provider :
      balance R ctx.provider_token_account t'
      ≡ balance R ctx.provider_token_account t + s.provider_amount
  pub to_collector : balance R ctx.fee_collector t' ≡ balance R ctx.fee_collector t + s.fee
  pub to_consumer :
      balance R ctx.consumer_token_account t'
      ≡ balance R ctx.consumer_token_account t + s.consumer_refund
  pub to_nobody_else :
      (j : Pubkey)
      → j ≢ ctx.vault
      → j ≢ ctx.provider_token_account
      → j ≢ ctx.fee_collector
      → j ≢ ctx.consumer_token_account
      → balance R j t' ≡ balance R j t

-- The four token accounts of a settlement are distinct.
pub record IsSeparate (ctx : ReleaseEscrow) : Type 0 where
  pub vault_provider : ctx.vault ≢ ctx.provider_token_account
  pub vault_collector : ctx.vault ≢ ctx.fee_collector
  pub vault_consumer : ctx.vault ≢ ctx.consumer_token_account
  pub provider_collector : ctx.provider_token_account ≢ ctx.fee_collector
  pub provider_consumer : ctx.provider_token_account ≢ ctx.consumer_token_account
  pub collector_consumer : ctx.fee_collector ≢ ctx.consumer_token_account

pub Moves-IsPaidOut :
    {R : Runtime} (ctx : ReleaseEscrow) (s : Split) (t u v t' : R.Tokens)
    → IsSeparate ctx
    → Moves R ctx.vault ctx.provider_token_account s.provider_amount t u
    → Moves R ctx.vault ctx.fee_collector s.fee u v
    → Moves R ctx.vault ctx.consumer_token_account s.consumer_refund v t'
    → IsPaidOut R ctx s t t'
Moves-IsPaidOut ctx s t u v t' d m1 m2 m3 =
    let p1 = m2.kept ctx.provider_token_account (ne_symm d.vault_provider) d.provider_collector in
    let p2 = m3.kept ctx.provider_token_account (ne_symm d.vault_provider) d.provider_consumer in
    let f1 = m1.kept ctx.fee_collector (ne_symm d.vault_collector) (ne_symm d.provider_collector) in
    let f2 = m3.kept ctx.fee_collector (ne_symm d.vault_collector) d.collector_consumer in
    let c1 =
      m1.kept ctx.consumer_token_account (ne_symm d.vault_consumer) (ne_symm d.provider_consumer) in
    let c2 =
      m2.kept ctx.consumer_token_account (ne_symm d.vault_consumer)
        (ne_symm d.collector_consumer) in
    record {
      from_vault = omega (arith, m1.debited, m2.debited, m3.debited);
      to_provider = omega (arith, m1.credited, p1, p2);
      to_collector = omega (arith, m2.credited, f1, f2);
      to_consumer = omega (arith, m3.credited, c1, c2);
      to_nobody_else = λ j a b c e. m3.kept j a e ∙ m2.kept j a c ∙ m1.kept j a b;
    }

pub pay_out-IsPaidOut :
    {R : Runtime} (laws : TransferLaws R) (ctx : ReleaseEscrow) (s : Split) (t t' : R.Tokens)
    → IsSeparate ctx
    → pay_out R ctx s t ≡ ok t'
    → IsPaidOut R ctx s t t'
unfolding pay_out
pay_out-IsPaidOut {R} laws ctx s t t' d h =
    let (u, e1, rest1) =
      >>=-eq-ok
        (transfer_if_positive R ctx.vault ctx.provider_token_account ctx.escrow s.provider_amount t)
        _ h in
    let (v, e2, e3) =
      >>=-eq-ok (transfer_if_positive R ctx.vault ctx.fee_collector ctx.escrow s.fee u) _ rest1 in
    Moves-IsPaidOut ctx s t u v t' d
      (transfer_if_positive-Moves laws _ _ _ _ t u d.vault_provider e1)
      (transfer_if_positive-Moves laws _ _ _ _ u v d.vault_collector e2)
      (transfer_if_positive-Moves laws _ _ _ _ v t' d.vault_consumer e3)

module _ {R : Runtime} (laws : TransferLaws R) (ctx : ReleaseEscrow) (cost : ℕ) (w w' : World R)
    (cfg : ProgramConfig) (esc : JobEscrow) (now : ℤ)
    (has_config : w.accounts ctx.config ≡ some (config cfg))
    (has_escrow : w.accounts ctx.escrow ≡ some (escrow esc)) (has_clock : w.clock ≡ some now)
    (separate : IsSeparate ctx) (released : release_escrow ctx cost w ≡ ok w') where
  -- A successful release was signed by the authority on a locked escrow, for a cost within the locked
  -- amount. If the vault and the three recipients are distinct accounts, the vault pays the provider
  -- its cost less the fee, the collector the fee and the consumer the rest, and no other balance
  -- changes. The escrow is then settled with its cost and fee, and no other account has changed.
  pub release-pays :
      (cfg.authority ≡ ctx.authority)
      × (esc.state ≡ locked)
      × (cost ≤ esc.locked_nmc)
      × IsPaidOut R ctx (split_of cfg esc cost) w.tokens w'.tokens
      × (w'.accounts
          ≡ update w.accounts ctx.escrow
              (escrow (settled_escrow esc cost (split_of cfg esc cost).fee now)))
  release-pays =
      let (is_locked, covered, signed, paid, written) =
        release-eq-ok ctx cost w w' cfg esc now has_config has_escrow has_clock released in
      (
        signed,
        is_locked,
        covered,
        pay_out-IsPaidOut laws ctx (split_of cfg esc cost) w.tokens w'.tokens separate paid,
        written,
      )
