-- ===== src/Coordinator/Payments/Retry.antt =====
-- Payments that are made twice.
use Prim.Native.String.{String}
use text.Mathlib.Text.{◌==◌ as str_eq}
use neuralmesh.Common.{
  false, ◌≢◌, some, none, [], Option, ◌≡◌, refl, true, eqb_refl, eqb_ne, ◌==◌, ◌∙◌, ap,
}
use neuralmesh.Coordinator.Jobs.{available_column}
use neuralmesh.Coordinator.Payments.{
  WithdrawBody, add_available, bearer, is_eth, check_withdrawal, queued_as, or_queue,
  queue_withdrawal, StripeCreditBody, insert_deposit, apply_credit, stripe_credit, count_session,
  WithdrawReply,
}
use neuralmesh.Coordinator.Rows.{Credit}
use neuralmesh.Coordinator.Store.{ok, internal_error, unwrap_or, ◌>>=◌, ◌>>◌, Conn, err, Db}
use neuralmesh.Database.{RowId}
use neuralmesh.Float.{Float}

module _ {R : Float} where
  stripe_credit-credits :
      (secret header : Option String) (body : StripeCreditBody R) (tx_id : RowId) (c : Conn R)
      (cr : Credit R)
      → c.faults ≡ []
      → str_eq (bearer header) (unwrap_or secret "") ≡ true
      → R.le body.amount_nmc (R.lit 0 0) ≡ false
      → count_session body.stripe_session_id c.store.deposits ≡ 0
      → c.store.credits.row body.account_id ≡ some cr
      → let after = stripe_credit secret header body tx_id c in
        (after.0 ≡ err internal_error)
        × (after.1.store.credits.row body.account_id ≡ some (add_available body.amount_nmc cr))
        × (after.1.store.deposits ≡ c.store.deposits)
        × (after.1.faults ≡ [])
  unfolding stripe_credit apply_credit insert_deposit
  stripe_credit-credits secret header body tx_id c cr f auth positive fresh row = (
    rw (f, auth, positive, fresh) refl,
    rw (f, auth, positive, fresh, row, eqb_refl body.account_id, row) refl,
    rw (f, auth, positive, fresh) refl,
    rw (f, auth, positive, fresh) refl,
  )

  -- With no fault, an authorised credit of a positive amount for a session that is not recorded ends in
  -- an error after the account has been credited; the session stays unrecorded, so that a retry
  -- credits the same payment again. The account has a credit row.
  pub stripe_credit-credits_again :
      (secret header : Option String) (body : StripeCreditBody R) (tx_id retry_id : RowId)
      (c : Conn R) (cr : Credit R)
      → c.faults ≡ []
      → str_eq (bearer header) (unwrap_or secret "") ≡ true
      → R.le body.amount_nmc (R.lit 0 0) ≡ false
      → count_session body.stripe_session_id c.store.deposits ≡ 0
      → c.store.credits.row body.account_id ≡ some cr
      → let after = stripe_credit secret header body tx_id c in
        let again = stripe_credit secret header body retry_id after.1 in
        let twice = add_available body.amount_nmc (add_available body.amount_nmc cr) in
        (after.0 ≡ err internal_error)
        × (after.1.store.credits.row body.account_id ≡ some (add_available body.amount_nmc cr))
        × (after.1.store.deposits ≡ c.store.deposits)
        × (again.1.store.credits.row body.account_id ≡ some twice)
  stripe_credit-credits_again secret header body tx_id retry_id c cr f auth positive fresh row =
      let first_try =
        stripe_credit-credits secret header body tx_id c cr f auth positive fresh row in
      let after = (stripe_credit secret header body tx_id c).1 in
      let unrecorded : count_session body.stripe_session_id after.store.deposits ≡ 0 =
        ap (count_session body.stripe_session_id) first_try.2 ∙ fresh in
      let retry =
        stripe_credit-credits secret header body retry_id after _ first_try.3 auth positive
          unrecorded first_try.1 in
      (first_try.0, first_try.1, first_try.2, retry.1)

  -- Two requests to withdraw, of which the second reads the balance before the first one writes.
  pub withdraw_twice : WithdrawBody R → RowId → RowId → Db R WithdrawReply
  withdraw_twice body tx_id other_id = do
    one ← check_withdrawal body
    two ← check_withdrawal body
    or_queue body tx_id one
    or_queue body other_id two

  -- Two withdrawals of which both read the balance before either writes are both queued, and
  -- both amounts are taken, though the balance was compared with one: the amount is positive and
  -- covered by the balance, the address has the form of an Ethereum address, the ids are two that
  -- are not taken, and no statement fails.
  pub withdraw-overdraws :
      (body : WithdrawBody R) (tx_id other_id : RowId) (c : Conn R) (cr : Credit R) (a : R.F)
      → c.faults ≡ []
      → R.le body.amount_nmc (R.lit 0 0) ≡ false
      → is_eth body.destination_address ≡ true
      → c.store.credits.row body.account_id ≡ some cr
      → cr.available_nmc ≡ some a
      → R.lt a body.amount_nmc ≡ false
      → c.store.transactions.row tx_id ≡ none
      → c.store.transactions.row other_id ≡ none
      → tx_id ≢ other_id
      → let after = withdraw_twice body tx_id other_id c in
        (after.0 ≡ ok (queued_as other_id))
        × (available_column (after.1.store.credits.row body.account_id)
            ≡ some (R.sub (R.sub a body.amount_nmc) body.amount_nmc))
  unfolding withdraw_twice check_withdrawal or_queue queue_withdrawal
  withdraw-overdraws body tx_id other_id c cr a f positive eth row free covered fresh fresh' ne =
      let miss : (tx_id == other_id) ≡ false = eqb_ne tx_id other_id ne in
      (
        rw (f, positive, eth, row, free, covered, fresh, miss, fresh') refl,
        rw
            (
              f,
              positive,
              eth,
              row,
              free,
              covered,
              fresh,
              miss,
              fresh',
              eqb_refl body.account_id,
              row,
              free,
            )
            refl,
      )
