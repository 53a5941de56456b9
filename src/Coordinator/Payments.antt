-- ===== src/Coordinator/Payments.antt =====
-- The payment endpoints of coordinator/src/api/rest.rs: get_balance, stripe_credit, withdraw and
-- list_transactions.
pub mod Retry
use Prim.Native.String.{String, len, slice}
use mathlib.Core.List.{reverse}
use text.Mathlib.Text.{◌==◌ as str_eq, starts_with}
use neuralmesh.Common.{
  none, ◌&&◌, List, Option, ◌∷◌, ℕ, Bool, [], some, suc, ◌||◌, not, ◌==◌, if◌then◌else◌, leb, ltb,
  take,
}
use neuralmesh.Coordinator.Jobs.{available_of}
use neuralmesh.Coordinator.Migration.{depositor}
use neuralmesh.Coordinator.Rows.{
  deposit as deposit_type, withdrawal as withdrawal_type, by_id, by_text, Store, Transaction,
  Credit, DepositRecord,
}
use neuralmesh.Coordinator.Store.{
  ◌>>=◌, bad_request, on_credits, pure, sub_null, query, ◌>>◌, Db, is_null, unwrap_or, fail_if,
  unauthorized, exec, insert_transaction, add_null,
}
use neuralmesh.Database.{RowId, scan, upsert_row, update_key}
use neuralmesh.Float.{Float}

pub record StripeCreditBody (R : Float) : Type 0 where
  pub account_id : RowId
  pub amount_nmc : R.F
  pub stripe_session_id : RowId
  pub amount_myr : R.F

pub data StripeReply : Type 0 where
  duplicate credited : StripeReply

pub record WithdrawBody (R : Float) : Type 0 where
  pub account_id : RowId
  pub destination_address : String
  pub amount_nmc : R.F
  pub chain : String

pub data WithdrawReply : Type 0 where
  invalid_address insufficient_balance : WithdrawReply
  queued_as : RowId → WithdrawReply

-- The balances of the reply, of which a column may be NULL.
pub record BalanceReply (R : Float) : Type 0 where
  pub account_id : RowId
  pub available_nmc : Option R.F
  pub escrowed_nmc : Option R.F
  pub total_earned_nmc : Option R.F
  pub total_spent_nmc : Option R.F

-- The text after "Bearer " in the header, and "" where there is none.
abbrev pub bearer : Option String → String
bearer none = ""
bearer (some h) = if starts_with h "Bearer " then slice h 7 (len h) else ""

-- An Ethereum address has 0x and 42 characters, a Solana address 32 to 44.
abbrev pub is_eth : String → Bool
is_eth s = starts_with s "0x" && (len s == 42)

abbrev pub is_sol : String → Bool
is_sol s = leb 32 (len s) && leb (len s) 44 && not (starts_with s "0x")

module _ {R : Float} where
  abbrev pub balance_reply : RowId → Option (Credit R) → BalanceReply R
  balance_reply k none = record {
    account_id = k;
    available_nmc = some (R.lit 0 0);
    escrowed_nmc = some (R.lit 0 0);
    total_earned_nmc = some (R.lit 0 0);
    total_spent_nmc = some (R.lit 0 0);
  }
  balance_reply k (some c) = record {
    account_id = k;
    available_nmc = c.available_nmc;
    escrowed_nmc = c.escrowed_nmc;
    total_earned_nmc = c.total_earned_nmc;
    total_spent_nmc = c.total_spent_nmc;
  }

  unfoldable pub get_balance : RowId → Db R (BalanceReply R)
  get_balance account_id = do
    bal ← query (λ s. s.credits.row account_id)
    pure (balance_reply account_id bal)

  -- SELECT COUNT(*) FROM deposit_records WHERE stripe_session_id = $1
  unfoldable pub count_session : RowId → List (DepositRecord R) → ℕ
  count_session k [] = 0
  count_session k (d ∷ ds) =
      let rest = count_session k ds in if d.stripe_session_id == k then suc rest else rest

  -- INSERT INTO deposit_records: no column may be NULL, no session occurs twice, and the account must
  -- exist.
  unfoldable pub insert_deposit :
      RowId → RowId → Option R.F → Option R.F → Store R → Option (Store R)
  unfolding count_session
  insert_deposit session account_id none amount_myr s = none
  insert_deposit session account_id (some nmc) none s = none
  insert_deposit session account_id (some nmc) (some myr) s =
      if is_null (s.accounts.row account_id) || ltb 0 (count_session session s.deposits)
      then none
      else some (record s {
        deposits =
            record {
              stripe_session_id = session;
              account_id = account_id;
              amount_nmc = nmc;
              amount_myr = myr;
            }
            ∷ s.deposits;
      })

  abbrev pub empty_credit : RowId → Credit R
  empty_credit k = record {
    account_id = k;
    available_nmc = some (R.lit 0 0);
    escrowed_nmc = some (R.lit 0 0);
    total_earned_nmc = some (R.lit 0 0);
    total_spent_nmc = some (R.lit 0 0);
  }

  abbrev pub add_available : R.F → Credit R → Credit R
  add_available m c = record c { available_nmc = add_null R c.available_nmc (some m) }

  -- The INSERT names no amount_nmc.
  unfoldable pub apply_credit : StripeCreditBody R → RowId → Db R StripeReply
  unfolding insert_deposit
  apply_credit body tx_id = do
    exec (
        on_credits (
          upsert_row body.account_id (depositor body.account_id body.amount_nmc)
            (add_available body.amount_nmc)))
    exec (insert_deposit body.stripe_session_id body.account_id none (some body.amount_myr))
    exec (
        insert_transaction (record {
          tx_id = tx_id;
          account_id = body.account_id;
          tx_type = deposit_type;
          amount_nmc = body.amount_nmc;
          balance_after = none;
          reference = some (by_id body.stripe_session_id);
        }))
    pure credited

  -- `secret` is the environment's INTERNAL_SECRET, `header` the authorization header.
  unfoldable pub stripe_credit :
      Option String → Option String → StripeCreditBody R → RowId → Db R StripeReply
  unfolding apply_credit count_session
  stripe_credit secret header body tx_id = do
    fail_if (not (str_eq (bearer header) (unwrap_or secret ""))) unauthorized
    fail_if (R.le body.amount_nmc (R.lit 0 0)) bad_request
    already ← query (λ s. count_session body.stripe_session_id s.deposits)
    (if ltb 0 already then pure duplicate else apply_credit body tx_id)

  abbrev pub take_available : R.F → Credit R → Credit R
  take_available m c = record c { available_nmc = sub_null R c.available_nmc (some m) }

  unfoldable pub queue_withdrawal : WithdrawBody R → RowId → Db R WithdrawReply
  queue_withdrawal body tx_id = do
    exec (on_credits (update_key body.account_id (take_available body.amount_nmc)))
    exec (
        insert_transaction (record {
          tx_id = tx_id;
          account_id = body.account_id;
          tx_type = withdrawal_type;
          amount_nmc = R.neg body.amount_nmc;
          balance_after = none;
          reference = some (by_text body.destination_address);
        }))
    pure (queued_as tx_id)

  -- The handler up to its reading of the balance: `none` where it goes on.
  unfoldable pub check_withdrawal : WithdrawBody R → Db R (Option WithdrawReply)
  check_withdrawal body = do
    fail_if (R.le body.amount_nmc (R.lit 0 0)) bad_request
    (if not (is_eth body.destination_address) && not (is_sol body.destination_address)
        then pure (some invalid_address)
        else do
          bal ← query (λ s. available_of R (s.credits.row body.account_id))
          pure (if R.lt bal body.amount_nmc then some insufficient_balance else none))

  pub or_queue : WithdrawBody R → RowId → Option WithdrawReply → Db R WithdrawReply
  unfolding queue_withdrawal
  or_queue body tx_id none = queue_withdrawal body tx_id
  or_queue body tx_id (some reply) = pure reply

  unfoldable pub withdraw : WithdrawBody R → RowId → Db R WithdrawReply
  unfolding check_withdrawal or_queue
  withdraw body tx_id = do refused ← check_withdrawal body; or_queue body tx_id refused

  -- The newest first; the default limit is 50.
  pub list_transactions : RowId → Option ℕ → Db R (List (Transaction R))
  unfolding scan
  list_transactions account_id limit = query (λ s.
      take (unwrap_or limit 50) (reverse (scan (λ t. t.account_id == account_id) s.transactions)))
