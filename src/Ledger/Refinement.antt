-- ===== src/Ledger/Refinement.antt =====
-- The handlers of the ledger service move balances as the accounts allow, whatever statements fail.
use neuralmesh.Common.{some, ◌∷◌, List, [], none, ◌≡◌, Option, zero, ℕ, suc}
use neuralmesh.Common.Int.{pos}
use neuralmesh.Coordinator.Jobs.{lock_credit, hourly_cost, release_row}
use neuralmesh.Coordinator.Keeping.{
  then-Keeps, Keeps, bind-Keeps, pure-Keeps, exec_returning-Keeps, guard-Keeps, or_fail-Keeps,
  get_now-Keeps, exec-Keeps, query-Keeps,
}
use neuralmesh.Coordinator.Rows.{Credit, Store, Escrow}
use neuralmesh.Coordinator.Store.{Conn, unwrap_or, bad_request, not_found, ok, err, Db, Reply}
use neuralmesh.Database.{RowId, update_key}
use neuralmesh.Float.{Float}
use neuralmesh.Ledger.{
  withdraw, DepositBody, deposit, lock_escrow, release_escrow, EscrowLockBody, get_balance,
  EscrowReleaseBody, WithdrawBody, debit_where, withdraw_credit, settle_escrow, withdrawn,
  escrow_created, new_escrow, balance_row, or_not_found,
}
use neuralmesh.Ledger.Accounts.{Balances, Moves, Represents, start}
use neuralmesh.Ledger.Statements.{
  earn-IsReached, IsReached, insert_transaction-IsReached, credit-IsReached, hold-IsReached,
  insert_escrow-IsReached, on_escrows-IsReached, open-IsReached, settle-IsReached, debit-IsReached,
}

-- A call of the service with the UUID that its handler draws.
pub data Call (R : Float) : Type 0 where
  get_balance_call : RowId → Call R
  deposit_call : RowId → DepositBody R → RowId → Call R
  withdraw_call : RowId → WithdrawBody R → RowId → Call R
  lock_call : EscrowLockBody R → RowId → Call R
  release_call : EscrowReleaseBody R → Call R

module _ {R : Float} where
  abbrev pub reply_to : Call R → Conn R → Conn R
  reply_to (get_balance_call k) c = (get_balance k c).1
  reply_to (deposit_call k body tx_id) c = (deposit k body tx_id c).1
  reply_to (withdraw_call k body tx_id) c = (withdraw k body tx_id c).1
  reply_to (lock_call body escrow_id) c = (lock_escrow body escrow_id c).1
  reply_to (release_call body) c = (release_escrow body c).1

  pub serve : List (Call R) → Conn R → Conn R
  serve [] c = c
  serve (call ∷ calls) c = serve calls (reply_to call c)

module _ {R : Float} (P : Store R → Type 0) where
  or_not_found-result :
      {A : Type 0} (r : Reply A × Conn R) → P r.1.store → P (or_not_found r).1.store
  or_not_found-result (ok a, c) h = h
  or_not_found-result (err e, c) h = h

  or_not_found-Keeps : {A : Type 0} {m : Db R A} → Keeps P m → Keeps P (λ c. or_not_found (m c))
  or_not_found-Keeps {m = m} k = record { run = λ c h. or_not_found-result (m c) (k.run c h) }

module _ {R : Float} (zero_add : (m : R.F) → R.add (R.lit 0 0) m ≡ m) where
  module _ (b : Balances R) where
    balance_row-IsReached :
        (k : RowId) (o : Option (Credit R)) → Keeps (IsReached b) (balance_row k o)
    balance_row-IsReached k none = record { run = λ c h. h }
    balance_row-IsReached k (some c) = pure-Keeps (IsReached b)

    get_balance-IsReached : (k : RowId) → Keeps (IsReached b) (get_balance k)
    unfolding get_balance
    get_balance-IsReached k =
        then-Keeps (IsReached b) (exec-Keeps (IsReached b) (open-IsReached zero_add b k)) (
          bind-Keeps (IsReached b) (or_not_found-Keeps (IsReached b) (query-Keeps (IsReached b) _))
            (balance_row-IsReached k))

    deposit-IsReached :
        (k : RowId) (body : DepositBody R) (tx_id : RowId)
        → Keeps (IsReached b) (deposit k body tx_id)
    unfolding deposit
    deposit-IsReached k body tx_id = guard-Keeps (IsReached b) _ bad_request (λ positive.
        then-Keeps (IsReached b)
          (exec-Keeps (IsReached b)
            (λ s t. credit-IsReached zero_add b k body.amount_nmc s t positive))
          (then-Keeps (IsReached b)
            (exec-Keeps (IsReached b) (λ s. insert_transaction-IsReached zero_add b _ s))
            (pure-Keeps (IsReached b))))

    withdrawn-IsReached :
        (k : RowId) (body : WithdrawBody R) (tx_id : RowId) (n : ℕ)
        → Keeps (IsReached b) (withdrawn k body tx_id n)
    unfolding withdrawn
    withdrawn-IsReached k body tx_id zero = pure-Keeps (IsReached b)
    withdrawn-IsReached k body tx_id (suc n) =
        then-Keeps (IsReached b)
          (exec-Keeps (IsReached b) (λ s. insert_transaction-IsReached zero_add b _ s))
          (pure-Keeps (IsReached b))

    withdraw-IsReached :
        (k : RowId) (body : WithdrawBody R) (tx_id : RowId)
        → Keeps (IsReached b) (withdraw k body tx_id)
    unfolding withdraw
    withdraw-IsReached k body tx_id = guard-Keeps (IsReached b) _ bad_request (λ positive.
        bind-Keeps (IsReached b)
          (exec_returning-Keeps (IsReached b)
            (debit_where k body.amount_nmc (withdraw_credit body.amount_nmc))
            (λ s. debit-IsReached zero_add b k body.amount_nmc s positive))
          (withdrawn-IsReached k body tx_id))

    escrow_created-IsReached :
        (body : EscrowLockBody R) (escrow_id : RowId) (n : ℕ)
        → Keeps (IsReached b) (escrow_created body escrow_id n)
    unfolding escrow_created
    escrow_created-IsReached body escrow_id zero = pure-Keeps (IsReached b)
    escrow_created-IsReached body escrow_id (suc n) =
        then-Keeps (IsReached b)
          (exec-Keeps (IsReached b)
            (insert_escrow-IsReached zero_add b (new_escrow body escrow_id)))
          (pure-Keeps (IsReached b))

    lock_escrow-IsReached :
        (body : EscrowLockBody R) (escrow_id : RowId)
        → Keeps (IsReached b) (lock_escrow body escrow_id)
    unfolding lock_escrow
    lock_escrow-IsReached body escrow_id =
        bind-Keeps (IsReached b)
          (exec_returning-Keeps (IsReached b)
            (debit_where body.consumer_id body.amount_nmc (lock_credit body.amount_nmc))
            (hold-IsReached zero_add b body.consumer_id body.amount_nmc))
          (escrow_created-IsReached body escrow_id)

    settle_escrow-IsReached :
        (body : EscrowReleaseBody R) (e : Escrow R) → Keeps (IsReached b) (settle_escrow body e)
    unfolding settle_escrow
    settle_escrow-IsReached body e =
        let x = hourly_cost R body.actual_price_per_hour (pos body.actual_runtime_s) in
        bind-Keeps (IsReached b) (get_now-Keeps (IsReached b)) (λ now.
          then-Keeps (IsReached b)
            (exec-Keeps (IsReached b) (settle-IsReached zero_add b e.consumer_id x e.locked_nmc))
            (then-Keeps (IsReached b)
              (exec-Keeps (IsReached b)
                (earn-IsReached zero_add b (unwrap_or e.provider_id 0) x e.locked_nmc))
              (then-Keeps (IsReached b)
                (exec-Keeps (IsReached b)
                  (on_escrows-IsReached zero_add b (update_key body.escrow_id (release_row now))))
                (pure-Keeps (IsReached b)))))

    release_escrow-IsReached :
        (body : EscrowReleaseBody R) → Keeps (IsReached b) (release_escrow body)
    unfolding release_escrow
    release_escrow-IsReached body = bind-Keeps (IsReached b) (query-Keeps (IsReached b) _) (λ row.
        bind-Keeps (IsReached b) (or_fail-Keeps (IsReached b) row not_found)
          (settle_escrow-IsReached body))

    reply_to-IsReached :
        (call : Call R) (c : Conn R) → IsReached b c.store → IsReached b (reply_to call c).store
    reply_to-IsReached (get_balance_call k) c h = (get_balance-IsReached k).run c h
    reply_to-IsReached (deposit_call k body tx_id) c h = (deposit-IsReached k body tx_id).run c h
    reply_to-IsReached (withdraw_call k body tx_id) c h = (withdraw-IsReached k body tx_id).run c h
    reply_to-IsReached (lock_call body escrow_id) c h =
        (lock_escrow-IsReached body escrow_id).run c h
    reply_to-IsReached (release_call body) c h = (release_escrow-IsReached body).run c h

    serve-IsReached :
        (calls : List (Call R)) (c : Conn R)
        → IsReached b c.store
        → IsReached b (serve calls c).store
    unfolding serve
    serve-IsReached [] c h = h
    serve-IsReached (call ∷ calls) c h =
        serve-IsReached calls (reply_to call c) (reply_to-IsReached call c h)

  -- Where the accounts show given balances, then after any calls of the service, whatever statements
  -- fail, the accounts show the balances that some legal movements lead to from there: deposits and
  -- withdrawals of positive amounts, withdrawals and locks of no more than what is free, and
  -- settlements whose cost is cut off at an amount, of which the provider earns 92%; that a lock of
  -- that amount is open is not part of it. Adding an amount to 0 gives that amount.
  pub serve-Represents :
      (calls : List (Call R)) (c : Conn R) (b : Balances R)
      → Represents c.store b
      → (b' : Balances R) × Moves b b' × Represents (serve calls c).store b'
  serve-Represents calls c b r = serve-IsReached b calls c (b, start, r)
