-- ===== src/Solana/Runtime.antt =====
-- What the programme of contracts/solana/programs/neuralmesh/src/lib.rs runs on. The SPL token
-- program, Metaplex, the derivation of addresses and the clock are not part of the repository: they
-- are the record `Runtime`. The accounts of the programme itself, the loading of a typed account and
-- the macros `require!` and `emit!` are written out. A transaction that fails changes nothing.
use neuralmesh.Common.{
  ℕ, ◌+◌, ◌*◌, ◌-◌, ◌^◌, Bool, true, false, Option, none, some, List, ◌∷◌, ltb, leb, ◌==◌,
  if◌then◌else◌, length, take, arith, refl, ◌≡◌,
}
use neuralmesh.Common.Int.{ℤ}
use neuralmesh.Solana.State.{
  Pubkey, Bytes, NmError, ProgramConfig, ProviderRecord, JobEscrow, BridgeNonce, Event,
}

-- How a transaction fails: by an error of the programme, by a constraint that Anchor checks, by a
-- panic (`unwrap` of `None`, a slice out of range), or by a called program or system call.
pub data Fault : Type 0 where
  nm_error : NmError → Fault
  constraint panic external : Fault

pub data Result (A : Type 0) : Type 0 where
  ok : A → Result A
  err : Fault → Result A

infixl 5 ◌>>◌ ◌>>=◌
-- The rest of a handler runs on what the statement before it gave, and not after a fault.
abbrev pub ◌>>=◌ : {A B : Type 0} (before : Result A) (rest : A → Result B) → Result B
err fault >>= rest = err fault
ok value >>= rest = rest value

-- A statement that only succeeds or faults.
abbrev pub ◌>>◌ : {B : Type 0} (before : Result (Unit {0})) (rest : Result B) → Result B
err fault >> rest = err fault
ok value >> rest = rest

-- `require!(c, e)`, and a constraint of an account context.
abbrev pub require : Bool → NmError → Result (Unit {0})
require true e = ok tt
require false e = err (nm_error e)

abbrev pub constrain : Bool → Result (Unit {0})
constrain true = ok tt
constrain false = err constraint

-- The `?` on a call of another program or of the system.
abbrev pub call : {A : Type 0} → Option A → Result A
call none = err external
call (some a) = ok a

-- u64 arithmetic: `checked_…(…).unwrap()`.
abbrev pub checked_add : ℕ → ℕ → Result ℕ
checked_add a b = if ltb (a + b) (2 ^ 64) then ok (a + b) else err panic

abbrev pub checked_mul : ℕ → ℕ → Result ℕ
checked_mul a b = if ltb (a * b) (2 ^ 64) then ok (a * b) else err panic

abbrev pub checked_sub : ℕ → ℕ → Result ℕ
checked_sub a b = if leb b a then ok (a - b) else err panic

-- `&array[..n]`
abbrev pub slice_to : Bytes → ℕ → Result Bytes
slice_to xs n = if leb n (length xs) then ok (take n xs) else err panic

pub record TokenAccount : Type 0 where
  pub mint : Pubkey
  pub owner : Pubkey
  pub amount : ℕ

-- The `DataV2` that the programme hands to Metaplex.
pub record TokenMetadata : Type 0 where
  pub name : Bytes
  pub symbol : Bytes
  pub uri : Bytes
  pub seller_fee_basis_points : ℕ
  pub creator : Pubkey
  pub creator_share : ℕ

pub record Runtime : Type 1 where
  pub Tokens : Type 0
  pub token_account : Pubkey → Tokens → Option TokenAccount
  pub is_mint : Pubkey → Tokens → Bool
  -- address, mint, owner
  pub init_token_account : Pubkey → Pubkey → Pubkey → Tokens → Option Tokens
  pub init_associated_if_needed : Pubkey → Pubkey → Pubkey → Tokens → Option Tokens
  -- from, to, authority, amount
  pub transfer : Pubkey → Pubkey → Pubkey → ℕ → Tokens → Option Tokens
  -- mint, to, authority, amount
  pub mint_to : Pubkey → Pubkey → Pubkey → ℕ → Tokens → Option Tokens
  -- mint, from, authority, amount
  pub burn : Pubkey → Pubkey → Pubkey → ℕ → Tokens → Option Tokens
  -- metadata, mint, authority, payer, data
  pub create_metadata : Pubkey → Pubkey → Pubkey → Pubkey → TokenMetadata → Tokens → Option Tokens
  -- edition, mint, authority, payer, metadata, max_supply
  pub create_master_edition :
      Pubkey → Pubkey → Pubkey → Pubkey → Pubkey → Option ℕ → Tokens → Option Tokens
  -- delegate, token account, edition, mint
  pub freeze_delegated : Pubkey → Pubkey → Pubkey → Pubkey → Tokens → Option Tokens
  -- find_program_address and create_program_address; `none` is a panic or an error
  pub find_pda : List Bytes → Option (Pubkey × ℕ)
  pub create_pda : List Bytes → ℕ → Option Pubkey
  -- the 32 bytes of a key
  pub key_bytes : Pubkey → Bytes

-- An account that the programme owns, with the type that its discriminator names.
pub data Account : Type 0 where
  config : ProgramConfig → Account
  provider : ProviderRecord → Account
  escrow : JobEscrow → Account
  nonce : BridgeNonce → Account

pub record World (R : Runtime) : Type 0 where
  pub accounts : Pubkey → Option Account
  pub tokens : R.Tokens
  pub clock : Option ℤ
  pub events : List Event

abbrev pub update : (Pubkey → Option Account) → Pubkey → Account → Pubkey → Option Account
update m k a j = if k == j then some a else m j

-- `Account<'info, T>` refuses an address that holds no account of type `T`.
abbrev pub as_config : Option Account → Result ProgramConfig
as_config (some (config c)) = ok c
as_config _ = err constraint

abbrev pub as_provider : Option Account → Result ProviderRecord
as_provider (some (provider p)) = ok p
as_provider _ = err constraint

abbrev pub as_escrow : Option Account → Result JobEscrow
as_escrow (some (escrow e)) = ok e
as_escrow _ = err constraint

abbrev pub as_nonce : Option Account → Result BridgeNonce
as_nonce (some (nonce n)) = ok n
as_nonce _ = err constraint

abbrev pub is_vacant : Option Account → Bool
is_vacant none = true
is_vacant (some _) = false

abbrev pub present : {A : Type 0} → Option A → Result A
present none = err constraint
present (some a) = ok a

-- `seeds = …, bump = b`: the address must be the derived one.
abbrev pub is_pda : Option Pubkey → Pubkey → Bool
is_pda none k = false
is_pda (some p) k = p == k

module _ {R : Runtime} where
  -- The accounts are written back when the instruction has succeeded.
  abbrev pub put : Pubkey → Account → World R → World R
  put k a w = record w { accounts = update w.accounts k a }

  abbrev pub with_tokens : R.Tokens → World R → World R
  with_tokens t w = record w { tokens = t }

  abbrev pub emit : Event → World R → World R
  emit e w = record w { events = e ∷ w.events }

  -- `init`: the address is the found one, with its bump, and nothing stands there yet.
  abbrev pub init_pda : List Bytes → Pubkey → World R → Result ℕ
  init_pda seeds k w = do
    (p, b) ← call (R.find_pda seeds)
    constrain (p == k)
    constrain (is_vacant (w.accounts k))
    ok b

abbrev pub check_pda : (R : Runtime) → List Bytes → ℕ → Pubkey → Result (Unit {0})
check_pda R seeds b k = constrain (is_pda (R.create_pda seeds b) k)

-- A sequence that succeeds has a first statement that did, whose value the rest succeeds on.
pub >>=-eq-ok :
    {A B : Type 0} {last : B} (before : Result A) (rest : A → Result B)
    → (before >>= rest) ≡ ok last
    → (value : A) × (before ≡ ok value) × (rest value ≡ ok last)
>>=-eq-ok (err fault) rest ended = absurd (ground arith)
>>=-eq-ok (ok value) rest ended = (value, refl, ended)
