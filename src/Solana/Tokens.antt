-- ===== src/Solana/Tokens.antt =====
-- What the programme of contracts/solana/programs/neuralmesh relies on in the SPL token program: the
-- documented effect of a transfer on the balances. The record is a hypothesis of the theorems on
-- payments; `Solana.Sample` has a runtime that satisfies it.
use neuralmesh.Common.{◌+◌, none, ◌≡◌, Option, ◌≢◌, some, ℕ}
use neuralmesh.Solana.Runtime.{TokenAccount, Runtime}
use neuralmesh.Solana.State.{Pubkey}

pub amount_of : Option TokenAccount → ℕ
amount_of none = 0
amount_of (some a) = a.amount

unfoldable pub balance : (R : Runtime) → Pubkey → R.Tokens → ℕ
unfolding amount_of
balance R k t = amount_of (R.token_account k t)

pub record TransferLaws (R : Runtime) : Type 0 where
  pub debits :
      (from to authority : Pubkey) (n : ℕ) (t t' : R.Tokens)
      → R.transfer from to authority n t ≡ some t'
      → from ≢ to
      → balance R from t' + n ≡ balance R from t
  pub credits :
      (from to authority : Pubkey) (n : ℕ) (t t' : R.Tokens)
      → R.transfer from to authority n t ≡ some t'
      → from ≢ to
      → balance R to t' ≡ balance R to t + n
  pub others :
      (from to authority : Pubkey) (n : ℕ) (t t' : R.Tokens) (j : Pubkey)
      → R.transfer from to authority n t ≡ some t'
      → j ≢ from
      → j ≢ to
      → balance R j t' ≡ balance R j t

-- An amount has moved from one account to another, and no other balance has changed.
pub record Moves (R : Runtime) (from to : Pubkey) (n : ℕ) (t t' : R.Tokens) : Type 0 where
  pub debited : balance R from t' + n ≡ balance R from t
  pub credited : balance R to t' ≡ balance R to t + n
  pub kept : (j : Pubkey) → j ≢ from → j ≢ to → balance R j t' ≡ balance R j t

pub transfer-Moves :
    {R : Runtime} (laws : TransferLaws R) (from to authority : Pubkey) (n : ℕ) (t t' : R.Tokens)
    → from ≢ to
    → R.transfer from to authority n t ≡ some t'
    → Moves R from to n t t'
transfer-Moves laws from to authority n t t' ne h = record {
  debited = laws.debits from to authority n t t' h ne;
  credited = laws.credits from to authority n t t' h ne;
  kept = λ j a b. laws.others from to authority n t t' j h a b;
}
