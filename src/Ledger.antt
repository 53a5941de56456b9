-- ===== src/Ledger.antt =====
-- The ledger service, ledger/src/off_chain/handlers.rs and the settlement endpoints of ledger/src/main.rs,
-- on the tables that it shares with the coordinator. The UUID that a handler draws is its last
-- argument. The empty id is 0.
pub mod Accounts
pub mod Statements
pub mod Refinement
pub mod Release
pub mod Payment
pub mod Oracle
pub mod Settlement
mod Tests
mod SettlementTests
use mathlib.Core.Option
use Prim.Native.String.{String}
use mathlib.Core.List.{reverse}
use neuralmesh.Common.{ℕ, Option, none, some, take, zero, suc, List, Bool, ◌==◌, if◌then◌else◌}
use neuralmesh.Common.Int.{pos}
use neuralmesh.Coordinator.Jobs.{release_row, is_locked, hourly_cost, lock_credit, available_column}
use neuralmesh.Coordinator.Lifecycle.{platform_fee}
use neuralmesh.Coordinator.Migration.{depositor}
use neuralmesh.Coordinator.Payments.{add_available, empty_credit}
use neuralmesh.Coordinator.Rows.{
  deposit as deposit_type, withdraw as withdraw_type, Escrow, Transaction, Credit, TxType, locked,
  Store, by_text,
}
use neuralmesh.Coordinator.Store.{
  ok, at_least, exec, not_found, Conn, unwrap_or, exec_returning, ◌>>=◌, insert_transaction,
  on_escrows, insert_escrow, Db, query, pure, add_null, fail, sub_null, Reply, bad_request, or_fail,
  err, get_now, ◌>>◌, on_credits, fail_if,
}
use neuralmesh.Database.{RowId, scan, upsert_row, update_key}
use neuralmesh.Float.{Float}

pub record Balance (R : Float) : Type 0 where
  pub account_id : RowId
  pub available_nmc : Option R.F
  pub escrowed_nmc : Option R.F
  pub total_nmc : R.F
  pub total_earned_nmc : Option R.F
  pub total_spent_nmc : Option R.F

pub record DepositBody (R : Float) : Type 0 where
  pub amount_nmc : R.F
  pub reference : Option String

pub record WithdrawBody (R : Float) : Type 0 where
  pub amount_nmc : R.F
  pub dest_address : String

pub record EscrowLockBody (R : Float) : Type 0 where
  pub job_id : RowId
  pub consumer_id : RowId
  pub provider_id : Option RowId
  pub amount_nmc : R.F

pub record EscrowReleaseBody (R : Float) : Type 0 where
  pub escrow_id : RowId
  pub job_id : RowId
  pub actual_runtime_s : ℕ
  pub actual_price_per_hour : R.F

-- The JSON of a reply: `"ok": true` with the id that was drawn, or `"ok": false`.
pub data LedgerReply : Type 0 where
  recorded : RowId → LedgerReply
  insufficient_balance : LedgerReply

pub record Released (R : Float) : Type 0 where
  pub provider_credited : R.F
  pub consumer_refunded : R.F
  pub platform_fee : R.F

-- The number of rows, 0 or 1, that an UPDATE by key reaches.
abbrev pub affected : {A : Type 0} → (A → Bool) → Option A → ℕ
affected p none = 0
affected p (some a) = if p a then 1 else 0

-- The platform fee of 8%.
abbrev pub fee_of : (R : Float) → R.F → R.F
fee_of R cost = R.mul cost (R.lit 8 2)

module _ {R : Float} where
  abbrev pub has_available : R.F → Credit R → Bool
  has_available m c = at_least R c.available_nmc m

  -- UPDATE credit_accounts SET f WHERE account_id = k AND available_nmc >= m
  abbrev pub debit_where : RowId → R.F → (Credit R → Credit R) → Store R → ℕ × Store R
  debit_where k m f s = (
    affected (has_available m) (s.credits.row k),
    record s { credits = update_key k (λ c. if has_available m c then f c else c) s.credits },
  )

  abbrev pub balance_row : RowId → Option (Credit R) → Db R (Balance R)
  balance_row k none = fail not_found
  balance_row k (some c) = pure (record {
    account_id = k;
    available_nmc = c.available_nmc;
    escrowed_nmc = c.escrowed_nmc;
    total_nmc =
        R.add (unwrap_or c.available_nmc (R.lit 0 0)) (unwrap_or c.escrowed_nmc (R.lit 0 0));
    total_earned_nmc = c.total_earned_nmc;
    total_spent_nmc = c.total_spent_nmc;
  })

  -- Any failure of the SELECT is answered by 404.
  abbrev pub or_not_found : {A : Type 0} → Reply A × Conn R → Reply A × Conn R
  or_not_found (ok a, c) = (ok a, c)
  or_not_found (err e, c) = (err not_found, c)

  unfoldable pub get_balance : RowId → Db R (Balance R)
  get_balance account_id = do
    exec (on_credits (upsert_row account_id (empty_credit account_id) (λ c. c)))
    row ← λ c. or_not_found (query (λ s. s.credits.row account_id) c)
    balance_row account_id row

  -- INSERT INTO transactions with the balance as it is now.
  abbrev pub record_transaction : RowId → RowId → TxType → R.F → Option String → Db R (Unit {0})
  record_transaction tx_id account_id tx_type amount reference = exec (λ s.
      insert_transaction
        (record {
          tx_id = tx_id;
          account_id = account_id;
          tx_type = tx_type;
          amount_nmc = amount;
          balance_after = available_column (s.credits.row account_id);
          reference = Option.map by_text reference;
        })
        s)

  unfoldable pub deposit : RowId → DepositBody R → RowId → Db R LedgerReply
  deposit account_id body tx_id = do
    fail_if (R.le body.amount_nmc (R.lit 0 0)) bad_request
    exec (
        on_credits (
          upsert_row account_id (depositor account_id body.amount_nmc)
            (add_available body.amount_nmc)))
    record_transaction tx_id account_id deposit_type body.amount_nmc body.reference
    pure (recorded tx_id)

  abbrev pub withdraw_credit : R.F → Credit R → Credit R
  withdraw_credit m c = record c {
    available_nmc = sub_null R c.available_nmc (some m);
    total_spent_nmc = add_null R c.total_spent_nmc (some m);
  }

  pub withdrawn : RowId → WithdrawBody R → RowId → ℕ → Db R LedgerReply
  withdrawn account_id body tx_id zero = pure insufficient_balance
  withdrawn account_id body tx_id (suc n) = do
    record_transaction tx_id account_id withdraw_type (R.neg body.amount_nmc)
        (some body.dest_address)
    pure (recorded tx_id)

  unfoldable pub withdraw : RowId → WithdrawBody R → RowId → Db R LedgerReply
  unfolding withdrawn
  withdraw account_id body tx_id = do
    fail_if (R.le body.amount_nmc (R.lit 0 0)) bad_request
    rows ← exec_returning (debit_where account_id body.amount_nmc (withdraw_credit body.amount_nmc))
    withdrawn account_id body tx_id rows

  abbrev pub new_escrow : EscrowLockBody R → RowId → Escrow R
  new_escrow body escrow_id = record {
    escrow_id = escrow_id;
    job_id = body.job_id;
    consumer_id = body.consumer_id;
    provider_id = body.provider_id;
    locked_nmc = body.amount_nmc;
    state = locked;
    settled_at = none;
  }

  pub escrow_created : EscrowLockBody R → RowId → ℕ → Db R LedgerReply
  escrow_created body escrow_id zero = pure insufficient_balance
  escrow_created body escrow_id (suc n) = do
    exec (insert_escrow (new_escrow body escrow_id))
    pure (recorded escrow_id)

  unfoldable pub lock_escrow : EscrowLockBody R → RowId → Db R LedgerReply
  unfolding escrow_created
  lock_escrow body escrow_id = do
    rows ←
        exec_returning (debit_where body.consumer_id body.amount_nmc (lock_credit body.amount_nmc))
    escrow_created body escrow_id rows

  -- SELECT … WHERE escrow_id = $1 AND state = 'locked'
  abbrev pub if_locked : Option (Escrow R) → Option (Escrow R)
  if_locked none = none
  if_locked (some e) = if is_locked e.state then some e else none

  -- `(price * hours).min(locked)`
  abbrev pub actual_cost : EscrowReleaseBody R → R.F → R.F
  actual_cost body locked_nmc =
      R.min_f64 (hourly_cost R body.actual_price_per_hour (pos body.actual_runtime_s)) locked_nmc

  abbrev pub settle_credit : R.F → R.F → Credit R → Credit R
  settle_credit locked_nmc refund c = record c {
    available_nmc = add_null R c.available_nmc (some refund);
    escrowed_nmc = sub_null R c.escrowed_nmc (some locked_nmc);
  }

  abbrev pub earn_credit : R.F → Credit R → Credit R
  earn_credit m c = record c {
    available_nmc = add_null R c.available_nmc (some m);
    total_earned_nmc = add_null R c.total_earned_nmc (some m);
  }

  abbrev pub earning : RowId → R.F → Credit R
  earning k m = record (empty_credit k) { available_nmc = some m; total_earned_nmc = some m }

  pub settle_escrow : EscrowReleaseBody R → Escrow R → Db R (Released R)
  settle_escrow body e =
      let cost = actual_cost body e.locked_nmc in
      let provider_gets = R.sub cost (fee_of R cost) in
      let consumer_refund = R.sub e.locked_nmc cost in
      let provider_id = unwrap_or e.provider_id 0 in
      do
        now ← get_now
        exec (on_credits (update_key e.consumer_id (settle_credit e.locked_nmc consumer_refund)))
        exec (
            on_credits (
              upsert_row provider_id (earning provider_id provider_gets)
                (earn_credit provider_gets)))
        exec (on_escrows (update_key body.escrow_id (release_row now)))
        pure (record {
          provider_credited = provider_gets;
          consumer_refunded = consumer_refund;
          platform_fee = fee_of R cost;
        })

  unfoldable pub release_escrow : EscrowReleaseBody R → Db R (Released R)
  unfolding settle_escrow
  release_escrow body = do
    row ← query (λ s. if_locked (s.escrows.row body.escrow_id))
    escrow ← or_fail row not_found
    settle_escrow body escrow

  -- The newest first, at most 100.
  pub list_transactions : RowId → Db R (List (Transaction R))
  unfolding scan
  list_transactions account_id =
      query (λ s. take 100 (reverse (scan (λ t. t.account_id == account_id) s.transactions)))
