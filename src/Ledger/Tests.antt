-- ===== src/Ledger/Tests.antt =====
-- The ledger service at small databases.
use neuralmesh.Common.{
  ◌∷◌, true, ◌≡◌, some, List, refl, arith, none, false, [], if◌then◌else◌, ◌==◌, inr, inl,
  Bool-cases, ◌≢◌,
}
use neuralmesh.Common.Int.{◌-ℤ◌, ◌+ℤ◌, ℤ, pos, ◌*ℤ◌}
use neuralmesh.Coordinator.Rows.{queued, released, Escrow}
use neuralmesh.Coordinator.Sample.{
  credit_row, nmc, two_rows, fixed_point, no_rows, connected, one_row, job_row,
}
use neuralmesh.Coordinator.Store.{err, unauthorized, ok, Conn, ◌>>◌, internal_error}
use neuralmesh.Database.{RowId}
use neuralmesh.Ledger.{
  insufficient_balance, actual_cost, release_escrow, DepositBody, fee_of, lock_escrow, earn_credit,
  escrow_created, EscrowReleaseBody, new_escrow, EscrowLockBody,
}
use neuralmesh.Ledger.Accounts.{Balances, Represents}
use neuralmesh.Ledger.Oracle.{verify_secret, submitted, on_chain_cancel}
use neuralmesh.Ledger.Payment.{lock_escrow-release_escrow}
use neuralmesh.Ledger.Refinement.{lock_call, Call, get_balance_call, deposit_call, release_call}
use neuralmesh.Ledger.Release.{release_escrow-pays_again}

zero_add : (m : ℤ) → pos 0 +ℤ m ≡ m
unfolding ◌+ℤ◌
zero_add m = ground arith

-- Job 1 has no escrow yet, account 7 has 50 available and 10 in escrow, account 5 is the provider's.
abbrev opened : Conn fixed_point
opened =
    let c = connected (one_row 1 (job_row 1 queued none none 0)) no_rows no_rows in
    record c {
      store = record (c.store) { credits = two_rows 7 (credit_row 7 50 10) 5 (credit_row 5 3 0) };
    }

abbrev lock_body : EscrowLockBody fixed_point
lock_body = record { job_id = 1; consumer_id = 7; provider_id = some 5; amount_nmc = nmc 20 }

-- Two hours at 4 NMC.
abbrev release_body : EscrowReleaseBody fixed_point
release_body = record {
  escrow_id = 9;
  job_id = 1;
  actual_runtime_s = 7200;
  actual_price_per_hour = nmc 4;
}

abbrev with_escrow : Conn fixed_point
with_escrow = record opened {
  store = record (opened.store) { escrows = one_row 9 (new_escrow lock_body 9) };
}

cost_of_two_hours : actual_cost release_body (nmc 20) ≡ nmc 8
unfolding ◌*ℤ◌ ◌+ℤ◌
cost_of_two_hours = refl

abbrev shown : Balances fixed_point
shown k =
    if 7 == k
    then record { free = nmc 50; held = nmc 10 }
    else if 5 == k
    then record { free = nmc 3; held = nmc 0 }
    else record { free = nmc 0; held = nmc 0 }

shown-Represents : Represents (opened.store) shown
shown-Represents k = elim (Bool-cases (7 == k)) [
  | inl consumer ↦ rw consumer (refl, refl)
  | inr miss ↦ elim (Bool-cases (5 == k)) [
    | inl provider ↦ rw (miss, provider) (refl, refl)
    | inr nobody ↦ rw (miss, nobody) (refl, refl)
  ]
]

abbrev deposit_body : DepositBody fixed_point
deposit_body = record { amount_nmc = nmc 2; reference = none }

abbrev calls : List (Call fixed_point)
calls =
    deposit_call 8 deposit_body 100
    ∷ (lock_call lock_body 9 ∷ (release_call release_body ∷ (get_balance_call 7 ∷ [])))

abbrev failing : Conn fixed_point
failing = record with_escrow { faults = false ∷ (false ∷ (false ∷ (true ∷ []))) }

release_escrow-pays_again_example :
    let cost = actual_cost release_body (nmc 20) in
    let gets = cost -ℤ fee_of fixed_point cost in
    let after = release_escrow release_body failing in
    let again = release_escrow release_body after.1 in
    (after.0 ≡ err internal_error)
    × (after.1.store.credits.row 5 ≡ some (earn_credit gets (credit_row 5 3 0)))
    × (after.1.store.escrows ≡ failing.store.escrows)
    × (again.1.store.credits.row 5 ≡ some (earn_credit gets (earn_credit gets (credit_row 5 3 0))))
release_escrow-pays_again_example =
    release_escrow-pays_again release_body failing (new_escrow lock_body 9) 5 (credit_row 7 50 10)
      (credit_row 5 3 0) refl refl refl refl (λ e. ground arith) refl refl

lock_escrow-release_escrow_example :
    let cost = actual_cost release_body (nmc 20) in
    let fee = fee_of fixed_point cost in
    let after = (lock_escrow lock_body 9 >> release_escrow release_body) opened in
    (after.0
      ≡ ok (record {
        provider_credited = cost -ℤ fee;
        consumer_refunded = nmc 20 -ℤ cost;
        platform_fee = fee;
      }))
    × (after.1.store.credits.row 5
        ≡ some (record (credit_row 5 3 0) {
          available_nmc = some (nmc 3 +ℤ (cost -ℤ fee));
          total_earned_nmc = some (nmc 0 +ℤ (cost -ℤ fee));
        }))
    × (after.1.store.credits.row 7
        ≡ some (record (credit_row 7 50 10) {
          available_nmc = some ((nmc 50 -ℤ nmc 20) +ℤ (nmc 20 -ℤ cost));
          escrowed_nmc = some ((nmc 10 +ℤ nmc 20) -ℤ nmc 20);
        }))
    × ((k : RowId) → k ≢ 5 → k ≢ 7 → after.1.store.credits.row k ≡ opened.store.credits.row k)
    × ((e : Escrow fixed_point) × (after.1.store.escrows.row 9 ≡ some e) × (e.state ≡ released))
lock_escrow-release_escrow_example =
    lock_escrow-release_escrow lock_body release_body opened 5 (credit_row 7 50 10)
      (credit_row 5 3 0) (nmc 50) (nmc 10) (nmc 3) (nmc 0) (job_row 1 queued none none 0) refl refl
      refl refl refl refl refl refl (λ e. ground arith) refl refl refl

-- A lock of more than is available changes nothing.
too_much :
    (lock_escrow (record lock_body { amount_nmc = nmc 51 }) 9 opened).0 ≡ ok insufficient_balance
unfolding lock_escrow escrow_created
too_much = refl

-- An unset secret authorises no settlement.
no_secret :
    on_chain_cancel none (λ k. submitted "0x1") (record { job_id = 1; secret = "" })
    ≡ err unauthorized
unfolding on_chain_cancel verify_secret
no_secret = refl
