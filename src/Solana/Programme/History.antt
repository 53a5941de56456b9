-- ===== src/Solana/Programme/History.antt =====
-- What holds in every state that transactions of
-- contracts/solana/programs/neuralmesh/src/lib.rs reach, by induction on the steps.
use neuralmesh.Solana.Bridge
use neuralmesh.Solana.Provider
use neuralmesh.Common.{true, some, Option, inl, ◌⊎◌, ◌≡◌, inr, none, ◌≤◌, arith, subst, ℕ, ◌≢◌}
use neuralmesh.Common.Int.{ℤ}
use neuralmesh.Database.{first}
use neuralmesh.Solana.Bridge.{BridgeMint}
use neuralmesh.Solana.Bridge.Life.{
  update_config-Follows, bridge_burn-Follows, bridge_mint-Follows, initialize-Follows,
}
use neuralmesh.Solana.Bridge.Replay.{bridge_mint_needs_nonce}
use neuralmesh.Solana.Escrow.Life.{
  cancel_escrow-Follows, release_escrow-Follows, lock_escrow-Follows, create_escrow-Follows,
}
use neuralmesh.Solana.Life.{Follows, Follows-refl}
use neuralmesh.Solana.Programme.{
  Instruction, Step, transact, Reach, environment, genesis, here, execute, next,
}
use neuralmesh.Solana.Provider.{Registration, RegisterProvider}
use neuralmesh.Solana.Provider.Life.{register_provider-Follows, revoke_provider-Follows}
use neuralmesh.Solana.Provider.Once.{register-eq-ok, register_address, record_of-ne-none}
use neuralmesh.Solana.Runtime.{provider, config, nonce, World, Account, escrow, ok, Runtime}
use neuralmesh.Solana.State.{JobEscrow, ProviderRecord, cancelled, Pubkey, settled}

module _ {R : Runtime} where
  pub execute-Follows :
      (i : Instruction) (w w' : World R)
      → execute i w ≡ ok w'
      → (k : Pubkey) → Follows (w.accounts k) (w'.accounts k)
  unfolding execute
  execute-Follows (Instruction.initialize ctx fee limit) w w' h =
      initialize-Follows ctx fee limit w w' h
  execute-Follows (Instruction.bridge_mint ctx amount n) w w' h =
      bridge_mint-Follows ctx amount n w w' h
  execute-Follows (Instruction.bridge_burn ctx amount) w w' h =
      bridge_burn-Follows ctx amount w w' h
  execute-Follows (Instruction.register_provider ctx args) w w' h =
      register_provider-Follows ctx args w w' h
  execute-Follows (Instruction.revoke_provider ctx) w w' h = revoke_provider-Follows ctx w w' h
  execute-Follows (Instruction.create_escrow ctx job_id amount price duration) w w' h =
      create_escrow-Follows ctx job_id amount price duration w w' h
  execute-Follows (Instruction.lock_escrow ctx) w w' h = lock_escrow-Follows ctx w w' h
  execute-Follows (Instruction.release_escrow ctx cost) w w' h =
      release_escrow-Follows ctx cost w w' h
  execute-Follows (Instruction.cancel_escrow ctx) w w' h = cancel_escrow-Follows ctx w w' h
  execute-Follows (Instruction.update_config ctx fee limit) w w' h =
      update_config-Follows ctx fee limit w w' h

  -- Whatever a transaction or the environment does, every account of the programme follows its life:
  -- an escrow moves along Open, Locked, Settled or Cancelled with its terms kept, but for the deadline that the lock sets, and a
  -- settled cost within the locked amount, the totals of the configuration only grow, a provider changes only by
  -- being revoked, and what is new is in its first state.
  pub Step-Follows :
      {w w' : World R} → Step w w' → (k : Pubkey) → Follows (w.accounts k) (w'.accounts k)
  Step-Follows (transact i w w' h) k = execute-Follows i w w' h k
  Step-Follows (environment w t c) k = Follows-refl (w.accounts k)

-- What is true of each account in every reachable state.
abbrev pub IsSound : Option Account → Type 0
IsSound none = Unit
IsSound (some (config c)) = c.platform_fee_bps ≤ 1000
IsSound (some (provider p)) = Unit
IsSound (some (escrow e)) = e.state ≡ settled → e.actual_cost ≤ e.locked_nmc
IsSound (some (nonce n)) = ⊥

pub Follows-IsSound : (a b : Option Account) → Follows a b → IsSound a → IsSound b
Follows-IsSound none none f s = tt
Follows-IsSound none (some (config c)) f s = f.0
Follows-IsSound none (some (provider p)) f s = tt
Follows-IsSound none (some (escrow e)) f s = ground arith
Follows-IsSound none (some (nonce n)) f s = f
Follows-IsSound (some (config c)) (some (config c')) f s = ground arith
Follows-IsSound (some (provider p)) (some (provider p')) f s = tt
Follows-IsSound (some (escrow e)) (some (escrow e')) (inl same) s = rw same s
Follows-IsSound (some (escrow e)) (some (escrow e')) (inr (edge, terms, cost)) s =
    λ h. rw terms.locked_nmc (cost h)
Follows-IsSound (some (nonce n)) b f s = absurd s
Follows-IsSound (some (config c)) none f s = absurd f
Follows-IsSound (some (config c)) (some (provider p)) f s = absurd f
Follows-IsSound (some (config c)) (some (escrow p)) f s = absurd f
Follows-IsSound (some (config c)) (some (nonce p)) f s = absurd f
Follows-IsSound (some (provider c)) none f s = absurd f
Follows-IsSound (some (provider c)) (some (config p)) f s = absurd f
Follows-IsSound (some (provider c)) (some (escrow p)) f s = absurd f
Follows-IsSound (some (provider c)) (some (nonce p)) f s = absurd f
Follows-IsSound (some (escrow c)) none f s = absurd f
Follows-IsSound (some (escrow c)) (some (config p)) f s = absurd f
Follows-IsSound (some (escrow c)) (some (provider p)) f s = absurd f
Follows-IsSound (some (escrow c)) (some (nonce p)) f s = absurd f

module _ {R : Runtime} where
  -- In every state reached from the deployed programme the platform fee is at most 10 %, a settled
  -- escrow has cost no more than was locked, and no nonce account exists.
  pub Reach-IsSound :
      (t : R.Tokens) (c : Option ℤ) {w : World R}
      → Reach (genesis t c) w
      → (k : Pubkey) → IsSound (w.accounts k)
  unfolding genesis
  Reach-IsSound t c here k = tt
  Reach-IsSound t c (next {t = u} {u = w} r st) k =
      Follows-IsSound (u.accounts k) (w.accounts k) (Step-Follows st k) (Reach-IsSound t c r k)

  -- An escrow that is settled or cancelled stays as it is, in every state that follows.
  pub settled_stays :
      {w w' : World R} (k : Pubkey) (e : JobEscrow)
      → Reach w w'
      → w.accounts k ≡ some (escrow e)
      → (e.state ≡ settled) ⊎ (e.state ≡ cancelled)
      → w'.accounts k ≡ some (escrow e)
  settled_stays k e here h d = h
  settled_stays k e (next {t = u} {u = w} r st) h d =
      ground (arith, settled_stays k e r h d, Step-Follows st k)

  pub revoked_stays :
      {w w' : World R} (k : Pubkey) (p : ProviderRecord)
      → Reach w w'
      → w.accounts k ≡ some (provider p)
      → p.revoked ≡ true
      → w'.accounts k ≡ some (provider p)
  revoked_stays k p here h d = h
  revoked_stays k p (next {t = u} {u = w} r st) h d =
      ground (arith, revoked_stays k p r h d, Step-Follows st k)

  -- No transaction ever mints through the bridge: `bridge_mint` needs a nonce account, and no
  -- instruction of the programme creates one.
  pub bridge_mint_never :
      (t : R.Tokens) (c : Option ℤ) {w : World R} (w' : World R) (ctx : BridgeMint) (amount n : ℕ)
      → Reach (genesis t c) w
      → Bridge.bridge_mint ctx amount n w ≢ ok w'
  bridge_mint_never t c {w} w' ctx amount n r h =
      let (nonce_acc, found) = bridge_mint_needs_nonce ctx amount n w w' h in
      subst IsSound found (Reach-IsSound t c r ctx.bridge_nonce)

  pub occupied_stays :
      {w w' : World R} (k : Pubkey) → Reach w w' → w.accounts k ≢ none → w'.accounts k ≢ none
  occupied_stays k here h = h
  occupied_stays k (next {t = u} {u = w} r st) h =
      ground (arith, occupied_stays k r h, Step-Follows st k)

  -- A provider registers once: after a successful registration no later one for the same key
  -- succeeds, in any state that follows, also when the record has been revoked.
  pub registered_once :
      (ctx ctx' : RegisterProvider) (args args' : Registration) (w w' w'' w3 : World R)
      → Provider.register_provider ctx args w ≡ ok w'
      → Reach w' w''
      → ctx'.provider ≡ ctx.provider
      → Provider.register_provider ctx' args' w'' ≢ ok w3
  registered_once ctx ctx' args args' w w' w'' w3 first r same second =
      let a = register_address ctx args w w' first in
      let b = register_address ctx' args' w'' w3 second in
      let record_there = (register-eq-ok ctx args w w' first).3 in
      let vacant = (register-eq-ok ctx' args' w'' w3 second).0 in
      let address : ctx'.provider_record ≡ ctx.provider_record = cc (a, b) in
      occupied_stays ctx.provider_record r (record_of-ne-none _ record_there)
        (rw (← address) vacant)
