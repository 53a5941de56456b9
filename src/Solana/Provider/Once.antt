-- ===== src/Solana/Provider/Once.antt =====
-- `register_provider` of contracts/solana/programs/neuralmesh/src/lib.rs.
-- The owner, the score and the flag of a provider's record.
use neuralmesh.Common.{◌∷◌, [], ℕ, arith, Bool, none, some, ◌≤◌, Option, ◌≡◌, false, length, ◌≢◌}
use neuralmesh.Common.Text.{bytes}
use neuralmesh.Solana.Provider.{Registration, RegisterProvider, register_provider}
use neuralmesh.Solana.Runtime.{ok, Account, World, Runtime, provider}
use neuralmesh.Solana.State.{Pubkey}

pub record_of : Option Account → Option (Pubkey × ℕ × Bool)
record_of (some (provider p)) = some (p.provider, p.trust_score_milli, p.revoked)
record_of _ = none

pub found_address : Option (Pubkey × ℕ) → Option Pubkey
found_address none = none
found_address (some (k, b)) = some k

module _ {R : Runtime} (ctx : RegisterProvider) (args : Registration) (w w' : World R) where
  -- A successful registration writes an unrevoked record with the starting score of 2500 at an
  -- address where nothing stood, for a vendor of at most 32 and a model of at most 64 bytes.
  pub register-eq-ok :
      register_provider ctx args w ≡ ok w'
      → (w.accounts ctx.provider_record ≡ none)
        × (length args.gpu_vendor ≤ 32)
        × (length args.gpu_model ≤ 64)
        × (record_of (w'.accounts ctx.provider_record) ≡ some (ctx.provider, 2500, false))
  unfolding register_provider record_of
  register-eq-ok h = ground arith

  -- The address of the record is the one found for the provider's key.
  pub register_address :
      register_provider ctx args w ≡ ok w'
      → found_address (R.find_pda (bytes "provider" ∷ R.key_bytes ctx.provider ∷ []))
        ≡ some ctx.provider_record
  unfolding register_provider found_address
  register_address h = ground arith

pub record_of-ne-none :
    (a : Option Account) {x : Pubkey × ℕ × Bool} → record_of a ≡ some x → a ≢ none
unfolding record_of
record_of-ne-none a h e = ground arith
