-- ===== src/Solana/Programme.antt =====
-- The instructions of `#[program] pub mod neuralmesh` in
-- contracts/solana/programs/neuralmesh/src/lib.rs together, and the states that transactions reach.
pub mod History
use neuralmesh.Solana.Bridge
use neuralmesh.Solana.Provider
use neuralmesh.Solana.Escrow
use neuralmesh.Common.{Option, ℕ, none, ◌≡◌, []}
use neuralmesh.Common.Int.{ℤ}
use neuralmesh.Solana.Bridge.{BridgeBurn, Initialize, BridgeMint, UpdateConfig}
use neuralmesh.Solana.Escrow.{ReleaseEscrow, CancelEscrow, CreateEscrow, LockEscrow}
use neuralmesh.Solana.Provider.{Registration, RevokeProvider, RegisterProvider}
use neuralmesh.Solana.Runtime.{Result, Runtime, World, nonce, ok}
use neuralmesh.Solana.State.{Bytes}

pub data Instruction : Type 0 where
  initialize : (ctx : Initialize) (platform_fee_bps bridge_mint_limit : ℕ) → Instruction
  bridge_mint : (ctx : BridgeMint) (amount n : ℕ) → Instruction
  bridge_burn : (ctx : BridgeBurn) (amount : ℕ) → Instruction
  register_provider : (ctx : RegisterProvider) (args : Registration) → Instruction
  revoke_provider : (ctx : RevokeProvider) → Instruction
  create_escrow :
      (ctx : CreateEscrow) (job_id : Bytes) (locked_nmc price_per_hour max_duration_secs : ℕ)
      → Instruction
  lock_escrow : (ctx : LockEscrow) → Instruction
  release_escrow : (ctx : ReleaseEscrow) (actual_cost : ℕ) → Instruction
  cancel_escrow : (ctx : CancelEscrow) → Instruction
  update_config : (ctx : UpdateConfig) (platform_fee_bps bridge_mint_limit : Option ℕ) → Instruction

module _ {R : Runtime} where
  unfoldable pub execute : Instruction → World R → Result (World R)
  execute (initialize ctx fee limit) w = Bridge.initialize ctx fee limit w
  execute (bridge_mint ctx amount n) w = Bridge.bridge_mint ctx amount n w
  execute (bridge_burn ctx amount) w = Bridge.bridge_burn ctx amount w
  execute (register_provider ctx args) w = Provider.register_provider ctx args w
  execute (revoke_provider ctx) w = Provider.revoke_provider ctx w
  execute (create_escrow ctx job_id amount price duration) w =
      Escrow.create_escrow ctx job_id amount price duration w
  execute (lock_escrow ctx) w = Escrow.lock_escrow ctx w
  execute (release_escrow ctx cost) w = Escrow.release_escrow ctx cost w
  execute (cancel_escrow ctx) w = Escrow.cancel_escrow ctx w
  execute (update_config ctx fee limit) w = Bridge.update_config ctx fee limit w

-- A transaction that succeeds, or anything that other programmes do to the tokens and the clock.
pub data Step {R : Runtime} : World R → World R → Type 0 where
  transact : (i : Instruction) (w w' : World R) → execute i w ≡ ok w' → Step w w'
  environment :
      (w : World R) (t : R.Tokens) (c : Option ℤ) → Step w (record w { tokens = t; clock = c })

pub data Reach {R : Runtime} (s : World R) : World R → Type 0 where
  here : Reach s s
  next : {t u : World R} → Reach s t → Step t u → Reach s u

-- The programme as deployed: it owns no account.
unfoldable pub genesis : {R : Runtime} → R.Tokens → Option ℤ → World R
genesis t c = record { accounts = λ _. none; tokens = t; clock = c; events = [] }
