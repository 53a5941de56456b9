-- ===== src/Solana/Life.antt =====
-- The life of one account of the programme: what an instruction may make of what stands at an address.
-- It is the specification that the instructions of
-- contracts/solana/programs/neuralmesh/src/lib.rs are held to.
use neuralmesh.Common.{
  some, true, refl, arith, inl, ◌⊎◌, ◌≡◌, ◌+◌, Bool, ◌≤◌, false, Option, inr, none, Bool-cases,
  ◌==◌, ==_iff, subst,
}
use neuralmesh.Solana.Runtime.{config, update, escrow, Account, nonce, provider}
use neuralmesh.Solana.State.{
  EscrowState, locked, settled, BridgeNonce, open_escrow, ProviderRecord, Pubkey, cancelled,
  JobEscrow, ProgramConfig,
}

-- The edges of the escrow's state machine.
abbrev pub can_follow : EscrowState → EscrowState → Bool
can_follow open_escrow locked = true
can_follow open_escrow cancelled = true
can_follow locked settled = true
can_follow locked cancelled = true
can_follow _ _ = false

-- The terms of an escrow, which no instruction changes; the deadline is set by the lock alone.
pub record SameTerms (e e' : JobEscrow) : Type 0 where
  pub job_id : e'.job_id ≡ e.job_id
  pub consumer : e'.consumer ≡ e.consumer
  pub provider : e'.provider ≡ e.provider
  pub locked_nmc : e'.locked_nmc ≡ e.locked_nmc
  pub job_id_len : e'.job_id_len ≡ e.job_id_len
  pub price_per_hour : e'.price_per_hour ≡ e.price_per_hour
  pub deadline : (e'.state ≡ locked) ⊎ (e'.deadline ≡ e.deadline)
  pub consumer_token_account : e'.consumer_token_account ≡ e.consumer_token_account
  pub provider_token_account : e'.provider_token_account ≡ e.provider_token_account
  pub created_at : e'.created_at ≡ e.created_at
  pub bump : e'.bump ≡ e.bump
  pub max_duration_secs : e'.max_duration_secs ≡ e.max_duration_secs
  pub vault : e'.vault ≡ e.vault

abbrev pub EscrowFollows : JobEscrow → JobEscrow → Type 0
EscrowFollows e e' =
    (e' ≡ e)
    ⊎ ((can_follow e.state e'.state ≡ true)
        × SameTerms e e'
        × (e'.state ≡ settled → e'.actual_cost ≤ e.locked_nmc))

-- The authority and the mint stay, the totals only grow and a changed fee is under the cap.
pub record ConfigFollows (c c' : ProgramConfig) : Type 0 where
  pub authority : c'.authority ≡ c.authority
  pub nmc_mint : c'.nmc_mint ≡ c.nmc_mint
  pub fee_collector : c'.fee_collector ≡ c.fee_collector
  pub fee : (c'.platform_fee_bps ≡ c.platform_fee_bps) ⊎ (c'.platform_fee_bps ≤ 1000)
  pub minted : c.total_minted ≤ c'.total_minted
  pub burned : c.total_burned ≤ c'.total_burned

abbrev pub ProviderFollows : ProviderRecord → ProviderRecord → Type 0
ProviderFollows p p' = (p' ≡ p) ⊎ (p' ≡ record p { revoked = true })

abbrev pub NonceFollows : BridgeNonce → BridgeNonce → Type 0
NonceFollows n n' = (n' ≡ n) ⊎ (n' ≡ record n { next_nonce = n.next_nonce + 1 })

-- What may stand at an address where nothing stood: never a nonce.
abbrev pub IsFresh : Account → Type 0
IsFresh (config c) = (c.platform_fee_bps ≤ 1000) × (c.total_minted ≡ 0) × (c.total_burned ≡ 0)
IsFresh (provider p) = p.revoked ≡ false
IsFresh (escrow e) = (e.state ≡ open_escrow) × (e.fee_collected ≡ 0)
IsFresh (nonce n) = ⊥

abbrev pub AccountFollows : Account → Account → Type 0
AccountFollows (config c) (config c') = ConfigFollows c c'
AccountFollows (provider p) (provider p') = ProviderFollows p p'
AccountFollows (escrow e) (escrow e') = EscrowFollows e e'
AccountFollows (nonce n) (nonce n') = NonceFollows n n'
AccountFollows _ _ = ⊥

abbrev pub Follows : Option Account → Option Account → Type 0
Follows none none = Unit
Follows none (some a) = IsFresh a
Follows (some a) (some a') = AccountFollows a a'
Follows (some a) none = ⊥

pub Follows-refl : (a : Option Account) → Follows a a
Follows-refl none = tt
Follows-refl (some (config c)) = ground arith
Follows-refl (some (provider p)) = inl refl
Follows-refl (some (escrow e)) = inl refl
Follows-refl (some (nonce n)) = inl refl

-- One written account is all that has to be looked at.
pub Follows-update :
    (m : Pubkey → Option Account) (k : Pubkey) (a : Account)
    → Follows (m k) (some a)
    → (j : Pubkey) → Follows (m j) (update m k a j)
Follows-update m k a h j = elim (Bool-cases (k == j)) [
  | inl same ↦ rw same (subst (λ i. Follows (m i) (some a)) ((==_iff k j).0 same) h)
  | inr miss ↦ rw miss (Follows-refl (m j))
]
