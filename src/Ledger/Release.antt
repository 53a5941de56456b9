-- ===== src/Ledger/Release.antt =====
-- What the release of an escrow pays, and what a retry does.
use neuralmesh.Common.{
  [], some, ◌≡◌, refl, ◌≢◌, false, ne_symm, eqb_refl, eqb_ne, ◌==◌, arith, true, ◌∷◌,
}
use neuralmesh.Coordinator.Jobs.{release_row, is_locked}
use neuralmesh.Coordinator.Rows.{locked, Credit, Escrow}
use neuralmesh.Coordinator.Store.{not_found, err, ok, Conn, unwrap_or, internal_error}
use neuralmesh.Database.{RowId}
use neuralmesh.Float.{Float}
use neuralmesh.Ledger.{
  fee_of, settle_credit, earn_credit, settle_escrow, EscrowReleaseBody, release_escrow, actual_cost,
}

module _ {R : Float} where
  -- With no fault, the release of a locked escrow gives the consumer back what was locked beyond the
  -- cost, takes the locked amount out of its escrow, pays the provider the cost less the fee of 8%, and
  -- marks the escrow released; a second release of it finds nothing and changes nothing. The
  -- consumer and the provider are two accounts that exist.
  pub release_escrow-pays :
      (body : EscrowReleaseBody R) (c : Conn R) (e : Escrow R) (p : RowId)
      (consumer worker : Credit R)
      → c.faults ≡ []
      → c.store.escrows.row body.escrow_id ≡ some e
      → e.state ≡ locked
      → e.provider_id ≡ some p
      → e.consumer_id ≢ p
      → c.store.credits.row e.consumer_id ≡ some consumer
      → c.store.credits.row p ≡ some worker
      → let cost = actual_cost body e.locked_nmc in
        let gets = R.sub cost (fee_of R cost) in
        let refund = R.sub e.locked_nmc cost in
        let after = release_escrow body c in
        (after.0
          ≡ ok (record {
            provider_credited = gets;
            consumer_refunded = refund;
            platform_fee = fee_of R cost;
          }))
        × (after.1.store.credits.row e.consumer_id
            ≡ some (settle_credit e.locked_nmc refund consumer))
        × (after.1.store.credits.row p ≡ some (earn_credit gets worker))
        × (after.1.store.escrows.row body.escrow_id ≡ some (release_row c.now e))
        × (release_escrow body after.1 ≡ (err not_found, after.1))
  unfolding release_escrow settle_escrow
  release_escrow-pays body c e p consumer worker f row still to ne has_c has_p =
      let no : (e.consumer_id == p) ≡ false = eqb_ne e.consumer_id p ne in
      let on : (p == e.consumer_id) ≡ false = eqb_ne p e.consumer_id (ne_symm ne) in
      let held : is_locked e.state ≡ true = ground arith in
      let payee : unwrap_or e.provider_id 0 ≡ p = ground arith in
      (
        rw (f, row, held) refl,
        rw (f, row, held, payee, no, has_p, on, eqb_refl e.consumer_id, has_c) refl,
        rw (f, row, held, payee, no, has_p, eqb_refl p, no, has_p) refl,
        rw (f, row, held, eqb_refl body.escrow_id, row) refl,
        rw (f, row, held, eqb_refl body.escrow_id, row) refl,
      )

  -- With no fault, the release of a locked escrow leaves every account of others as it was.
  pub release_escrow-others :
      (body : EscrowReleaseBody R) (c : Conn R) (e : Escrow R) (p : RowId) (worker : Credit R)
      (k : RowId)
      → c.faults ≡ []
      → c.store.escrows.row body.escrow_id ≡ some e
      → e.state ≡ locked
      → e.provider_id ≡ some p
      → e.consumer_id ≢ p
      → c.store.credits.row p ≡ some worker
      → k ≢ p
      → k ≢ e.consumer_id
      → (release_escrow body c).1.store.credits.row k ≡ c.store.credits.row k
  unfolding release_escrow settle_escrow
  release_escrow-others body c e p worker k f row still to ne has_p off_p off_c =
      let no : (e.consumer_id == p) ≡ false = eqb_ne e.consumer_id p ne in
      let held : is_locked e.state ≡ true = ground arith in
      let payee : unwrap_or e.provider_id 0 ≡ p = ground arith in
      let off : (p == k) ≡ false = eqb_ne p k (ne_symm off_p) in
      let off' : (e.consumer_id == k) ≡ false = eqb_ne e.consumer_id k (ne_symm off_c) in
      rw (f, row, held, payee, no, has_p, off, off') refl

  -- Where only the last statement of a release fails, the caller gets an error although the provider has
  -- been paid, the escrow stays as it was, and a retry pays the provider the same amount again. The
  -- escrow is locked, and the consumer and the provider are two accounts that exist.
  pub release_escrow-pays_again :
      (body : EscrowReleaseBody R) (c : Conn R) (e : Escrow R) (p : RowId)
      (consumer worker : Credit R)
      → c.faults ≡ false ∷ (false ∷ (false ∷ (true ∷ [])))
      → c.store.escrows.row body.escrow_id ≡ some e
      → e.state ≡ locked
      → e.provider_id ≡ some p
      → e.consumer_id ≢ p
      → c.store.credits.row e.consumer_id ≡ some consumer
      → c.store.credits.row p ≡ some worker
      → let cost = actual_cost body e.locked_nmc in
        let gets = R.sub cost (fee_of R cost) in
        let after = release_escrow body c in
        let again = release_escrow body after.1 in
        (after.0 ≡ err internal_error)
        × (after.1.store.credits.row p ≡ some (earn_credit gets worker))
        × (after.1.store.escrows ≡ c.store.escrows)
        × (again.1.store.credits.row p ≡ some (earn_credit gets (earn_credit gets worker)))
  unfolding release_escrow settle_escrow
  release_escrow-pays_again body c e p consumer worker f row still to ne has_c has_p =
      let cost = actual_cost body e.locked_nmc in
      let gets = R.sub cost (fee_of R cost) in
      let refund = R.sub e.locked_nmc cost in
      let after = release_escrow body c in
      let no : (e.consumer_id == p) ≡ false = eqb_ne e.consumer_id p ne in
      let on : (p == e.consumer_id) ≡ false = eqb_ne p e.consumer_id (ne_symm ne) in
      let held : is_locked e.state ≡ true = ground arith in
      let payee : unwrap_or e.provider_id 0 ≡ p = ground arith in
      let paid : after.1.store.credits.row p ≡ some (earn_credit gets worker) =
        rw (f, row, held, payee, no, has_p, eqb_refl p, no, has_p) refl in
      let settled : after.1.store.credits.row e.consumer_id
          ≡ some (settle_credit e.locked_nmc refund consumer) =
        rw (f, row, held, payee, no, has_p, on, eqb_refl e.consumer_id, has_c) refl in
      let kept : after.1.store.escrows ≡ c.store.escrows = rw (f, row, held) refl in
      let calm : after.1.faults ≡ [] = rw (f, row, held) refl in
      let same : after.1.store.escrows.row body.escrow_id ≡ some e = rw (f, row, held, row) refl in
      let again = release_escrow-pays body after.1 e p _ _ calm same still to ne settled paid in
      (rw (f, row, held) refl, paid, kept, again.2)
