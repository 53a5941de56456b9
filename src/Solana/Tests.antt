-- ===== src/Solana/Tests.antt =====
-- Settlements, histories and the bridge over the sample runtime.
use neuralmesh.Common.{◌≢◌, none, ◌≤◌, some, ◌≡◌, arith, refl}
use neuralmesh.Common.Int.{pos}
use neuralmesh.Solana.Bridge.{bridge_mint, BridgeMint, bridge_mint_accounts}
use neuralmesh.Solana.Escrow.{
  release_escrow, pay_out, split_payment, release_accounts, transfer_if_positive, check_escrow_pda,
}
use neuralmesh.Solana.Escrow.Settlement.{
  IsSeparate, release-pays, settled_escrow, IsPaidOut, split_of,
}
use neuralmesh.Solana.Fixtures.{
  world_with, sample_escrow, sample_nonce, vault_key, sample_tokens, initialized_reached,
  release_ctx, from_ok, nonce_key, initialized, sample_config, escrow_key, config_key,
}
use neuralmesh.Solana.Life.{Follows}
use neuralmesh.Solana.Programme.{execute, Step, transact, Instruction}
use neuralmesh.Solana.Programme.History.{Step-Follows, Reach-IsSound, IsSound, bridge_mint_never}
use neuralmesh.Solana.Runtime.{ok, nonce, put, config, with_tokens, emit, update, World, escrow}
use neuralmesh.Solana.Sample.{sample, sample_laws, token_transfer, set_amount, credit}
use neuralmesh.Solana.State.{
  EscrowState, locked, open_escrow, escrow_settled_event, settled, bridge_mint_event,
}
use neuralmesh.Solana.Tokens.{balance}

release_run :
    let t =
      (from_ok (world_with locked) (release_escrow release_ctx 700 (world_with locked))).tokens in
    (balance sample 21 t ≡ 689) × (balance sample 22 t ≡ 21) × (balance sample 20 t ≡ 800)
unfolding release_escrow release_accounts check_escrow_pda split_payment pay_out
    transfer_if_positive token_transfer balance
release_run = (refl, refl, refl)

abbrev released_world : World sample
released_world = emit (escrow_settled_event 6 5 700 21 300) (
    put escrow_key
      (escrow (record sample_escrow {
        actual_cost = 700;
        fee_collected = 21;
        state = settled;
        settled_at = pos 200;
      }))
      (with_tokens
        (set_amount
          (set_amount
            (set_amount
              (set_amount (set_amount (set_amount sample_tokens vault_key 321) 21 689) vault_key
                300)
              22 21)
            vault_key 0)
          20 800)
        (world_with locked)))

release_ok : release_escrow release_ctx 700 (world_with locked) ≡ ok released_world
unfolding release_escrow release_accounts check_escrow_pda split_payment pay_out
    transfer_if_positive token_transfer
release_ok = refl

release-IsSeparate : IsSeparate release_ctx
release-IsSeparate = omega arith

release-pays_example :
    (sample_config.authority ≡ 9)
    × (◌≡◌ {A = EscrowState} locked locked)
    × (700 ≤ 1000)
    × IsPaidOut sample release_ctx
        (split_of sample_config (record sample_escrow { state = locked }) 700)
        sample_tokens
        released_world.tokens
    × (released_world.accounts
        ≡ update (world_with locked).accounts escrow_key (
            escrow (
              settled_escrow
                (record sample_escrow { state = locked })
                700
                (split_of sample_config (record sample_escrow { state = locked }) 700).fee
                (pos 200))))
release-pays_example =
    release-pays sample_laws release_ctx 700 (world_with locked) released_world sample_config
      (record sample_escrow { state = locked }) (pos 200) refl refl refl release-IsSeparate
      release_ok

release-Step : Step (world_with locked) released_world
unfolding execute
release-Step =
    transact (Instruction.release_escrow release_ctx 700) (world_with locked) released_world
      release_ok

Step-Follows_example :
    Follows ((world_with locked).accounts escrow_key) (released_world.accounts escrow_key)
Step-Follows_example = Step-Follows release-Step escrow_key

Reach-IsSound_example : IsSound (initialized.accounts config_key)
Reach-IsSound_example = Reach-IsSound sample_tokens (some (pos 50)) initialized_reached config_key

abbrev stopped : World sample
stopped = record released_world { clock = none }

abbrev mint_ctx : BridgeMint
mint_ctx = record {
  config = config_key;
  nmc_mint = 1;
  recipient_token_account = 20;
  recipient = 5;
  bridge_nonce = nonce_key;
  authority = 9;
}

bridge_mint_never_example : bridge_mint mint_ctx 5 7 initialized ≢ ok initialized
bridge_mint_never_example =
    bridge_mint_never sample_tokens (some (pos 50)) initialized mint_ctx 5 7 initialized_reached

abbrev minted_world : World sample
minted_world = emit (bridge_mint_event 5 40 7) (
    put nonce_key (nonce (record sample_nonce { next_nonce = 8 })) (
      put config_key (config (record sample_config { total_minted = 40 }))
        (with_tokens (set_amount sample_tokens 20 540) (world_with open_escrow))))

mint_ok : bridge_mint mint_ctx 40 7 (world_with open_escrow) ≡ ok minted_world
unfolding bridge_mint bridge_mint_accounts credit
mint_ok = refl
