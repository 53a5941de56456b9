-- ===== src/Solana/Sample.antt =====
-- A runtime for tests of contracts/solana/programs/neuralmesh: balances in a function, addresses by a
-- polynomial of the seeds, seeds of at most 32 bytes.
use neuralmesh.Common.{
  ◌∷◌, List, ◌≡◌, Option, ◌%◌, ◌*◌, arith, ◌+◌, none, ◌-◌, ◌≢◌, true, ◌&&◌, Bool, some, [], ℕ, leb,
  ◌==◌, if◌then◌else◌, length,
}
use neuralmesh.Solana.Runtime.{Runtime, TokenAccount}
use neuralmesh.Solana.State.{Bytes, Pubkey}
use neuralmesh.Solana.Tokens.{balance, TransferLaws}

abbrev pub Ledger : Type 0
Ledger = Pubkey → Option TokenAccount

unfoldable pub set_amount : Ledger → Pubkey → ℕ → Ledger
set_amount t k n j =
    if k == j then elim (t k) [ none ↦ none | some a ↦ some (record a { amount = n }) ] else t j

unfoldable pub move :
    Pubkey
    → Pubkey
    → Pubkey
    → ℕ
    → Option TokenAccount
    → Option TokenAccount
    → Ledger
    → Option Ledger
unfolding set_amount
move from to authority n (some a) (some b) t =
    if a.mint == b.mint && a.owner == authority && leb n a.amount
    then some
        (if from == to then t else set_amount (set_amount t from (a.amount - n)) to (b.amount + n))
    else none
move from to authority n _ _ t = none

unfoldable pub token_transfer : Pubkey → Pubkey → Pubkey → ℕ → Ledger → Option Ledger
unfolding move
token_transfer from to authority n t = move from to authority n (t from) (t to) t

unfoldable pub credit : Option TokenAccount → Pubkey → ℕ → Ledger → Option Ledger
unfolding set_amount
credit none to n t = none
credit (some b) to n t = some (set_amount t to (b.amount + n))

unfoldable pub debit : Option TokenAccount → Pubkey → ℕ → Ledger → Option Ledger
unfolding set_amount
debit none from n t = none
debit (some b) from n t = if leb n b.amount then some (set_amount t from (b.amount - n)) else none

abbrev pub open_token : Pubkey → Pubkey → Pubkey → Ledger → Ledger
open_token k m o t j = if k == j then some (record { mint = m; owner = o; amount = 0 }) else t j

abbrev pub fold_bytes : ℕ → Bytes → ℕ
fold_bytes acc [] = acc
fold_bytes acc (b ∷ bs) = fold_bytes (acc * 257 + b + 1) bs

abbrev pub seeds_fit : List Bytes → Bool
seeds_fit [] = true
seeds_fit (s ∷ ss) = leb (length s) 32 && seeds_fit ss

abbrev pub address : ℕ → List Bytes → Pubkey
address acc [] = acc
address acc (s ∷ ss) = address (fold_bytes (acc * 263 + 7) s) ss

abbrev pub sample : Runtime
sample = record {
  Tokens = Ledger;
  token_account = λ k t. t k;
  is_mint = λ k t. k == 1;
  init_token_account = λ k m o t. some (open_token k m o t);
  init_associated_if_needed = λ k m o t. some (open_token k m o t);
  transfer = token_transfer;
  mint_to = λ m to a n t. credit (t to) to n t;
  burn = λ m from a n t. debit (t from) from n t;
  create_metadata = λ k m a p d t. some t;
  create_master_edition = λ e m a p k s t. some t;
  freeze_delegated = λ d k e m t. some t;
  find_pda = λ seeds. if seeds_fit seeds then some (address 1 seeds, 255) else none;
  create_pda = λ seeds b. if b == 255 && seeds_fit seeds then some (address 1 seeds) else none;
  key_bytes = λ k. k % 256 ∷ [];
}

sample_debits :
    (from to authority : Pubkey) (n : ℕ) (t t' : Ledger)
    → token_transfer from to authority n t ≡ some t'
    → from ≢ to
    → balance sample from t' + n ≡ balance sample from t
unfolding token_transfer balance
sample_debits from to authority n t t' h ne = ground arith

sample_credits :
    (from to authority : Pubkey) (n : ℕ) (t t' : Ledger)
    → token_transfer from to authority n t ≡ some t'
    → from ≢ to
    → balance sample to t' ≡ balance sample to t + n
unfolding token_transfer balance
sample_credits from to authority n t t' h ne = ground arith

sample_others :
    (from to authority : Pubkey) (n : ℕ) (t t' : Ledger) (j : Pubkey)
    → token_transfer from to authority n t ≡ some t'
    → j ≢ from
    → j ≢ to
    → balance sample j t' ≡ balance sample j t
unfolding token_transfer balance
sample_others from to authority n t t' j h a b = ground arith

pub sample_laws : TransferLaws sample
sample_laws = record { debits = sample_debits; credits = sample_credits; others = sample_others }
