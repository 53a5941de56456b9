-- ===== src/Ledger/Statements.antt =====
-- What each statement of the ledger service does to the balances.
use neuralmesh.Common.{
  refl, Option, ◌≡◌, inr, arith, sym, subst, some, false, inl, ◌⊎◌, none, eqb_refl, Option-cases,
  ◌==◌, eqb→eq, Bool-cases, if◌then◌else◌,
}
use neuralmesh.Coordinator.Jobs.{lock_credit}
use neuralmesh.Coordinator.Migration.{depositor}
use neuralmesh.Coordinator.Payments.{empty_credit}
use neuralmesh.Coordinator.Rows.{Store, Escrow, Transaction, Credit}
use neuralmesh.Coordinator.Store.{insert_transaction, insert_escrow, on_escrows, on_credits}
use neuralmesh.Database.{upsert_row, Table, merge_row, RowId, update_key}
use neuralmesh.Float.{Float}
use neuralmesh.Idle.History.{step}
use neuralmesh.Ledger.{
  debit_where, withdraw_credit, add_available, settle_credit, earn_credit, earning, has_available,
  fee_of,
}
use neuralmesh.Ledger.Accounts.{
  moved, Shows, Balances, move, top_up, change, IsLegal, Holding, settle_up, take_out, Movement,
  Moves, Represents, set_aside, pay_provider,
}

module _ {R : Float} where
  -- What legal moves lead to from given balances.
  abbrev pub IsReached : Balances R → Store R → Type 0
  IsReached b s = (b' : Balances R) × Moves b b' × Represents s b'

module _ {R : Float} (zero_add : (m : R.F) → R.add (R.lit 0 0) m ≡ m) where
  set-Represents :
      (t t' : Table (Credit R)) (k : RowId) (f : Holding R → Holding R) (b : Balances R)
      → ((j : RowId) → Shows (t.row j) (b j))
      → ((j : RowId) → (k == j) ≡ false → t'.row j ≡ t.row j)
      → Shows (t'.row k) (f (b k))
      → (j : RowId) → Shows (t'.row j) (change k f b j)
  set-Represents t t' k f b h miss hit j = elim (Bool-cases (k == j)) [
    | inr ne ↦ rw (ne, miss j ne) (h j)
    | inl eq ↦ subst (λ i. Shows (t'.row i) (change k f b i)) (eqb→eq k j eq) (rw (eqb_refl k) hit)
  ]

  merge-Shows :
      (k : RowId) (a : Credit R) (g : Credit R → Credit R) (o : Option (Credit R))
      (t : Table (Credit R)) (h : Holding R) (f : Holding R → Holding R)
      → t.row k ≡ o
      → Shows o h
      → (Shows {R = R} none h → Shows (some a) (f h))
      → ((c : Credit R) → Shows (some c) h → Shows (some (g c)) (f h))
      → Shows ((merge_row k a g o t).row k) (f h)
  merge-Shows k a g none t h f row s new old = rw (eqb_refl k) (new s)
  merge-Shows k a g (some c) t h f row s new old = rw (eqb_refl k, row) (old c s)

  merge-miss :
      (k : RowId) (a : Credit R) (g : Credit R → Credit R) (o : Option (Credit R))
      (t : Table (Credit R)) (j : RowId)
      → (k == j) ≡ false
      → (merge_row k a g o t).row j ≡ t.row j
  merge-miss k a g none t j ne = rw ne refl
  merge-miss k a g (some c) t j ne = rw ne refl

  upsert-Represents :
      (s : Store R) (k : RowId) (a : Credit R) (g : Credit R → Credit R) (b : Balances R)
      (f : Holding R → Holding R)
      → Represents s b
      → ((h : Holding R) → Shows {R = R} none h → Shows (some a) (f h))
      → ((c : Credit R) (h : Holding R) → Shows (some c) h → Shows (some (g c)) (f h))
      → (j : RowId) → Shows ((upsert_row k a g s.credits).row j) (change k f b j)
  upsert-Represents s k a g b f r new old =
      set-Represents s.credits (upsert_row k a g s.credits) k f b r
        (merge-miss k a g (s.credits.row k) s.credits)
        (merge-Shows k a g (s.credits.row k) s.credits (b k) f refl (r k) (new (b k))
          (λ c. old c (b k)))

  add_available-Shows :
      (m : R.F) (c : Credit R) (h : Holding R)
      → Shows (some c) h
      → Shows (some (add_available m c)) (record h { free = R.add h.free m })
  add_available-Shows m c h (free, held) = (rw free refl, held)

  earn_credit-Shows :
      (m : R.F) (c : Credit R) (h : Holding R)
      → Shows (some c) h
      → Shows (some (earn_credit m c)) (record h { free = R.add h.free m })
  earn_credit-Shows m c h (free, held) = (rw free refl, held)

  depositor-Shows :
      (k : RowId) (m : R.F) (h : Holding R)
      → Shows {R = R} none h
      → Shows (some (depositor k m)) (record h { free = R.add h.free m })
  depositor-Shows k m h (free, held) = (cc (free, zero_add m), cc held)

  earning-Shows :
      (k : RowId) (m : R.F) (h : Holding R)
      → Shows {R = R} none h
      → Shows (some (earning k m)) (record h { free = R.add h.free m })
  earning-Shows k m h (free, held) = (cc (free, zero_add m), cc held)

  unchanged :
      (k j : RowId) (b : Balances R) (o : Option (Credit R))
      → Shows o (change k (λ h. h) b j)
      → Shows o (b j)
  unchanged k j b o = elim (Bool-cases (k == j)) [
    | inl eq ↦ rw eq (λ h. h)
    | inr ne ↦ rw ne (λ h. h)
  ]

  module _ (b : Balances R) where
    pub same_credits : (s t : Store R) → IsReached b s → t.credits ≡ s.credits → IsReached b t
    same_credits s t (b', ms, r) same =
        (b', ms, λ k. subst (λ cs. Shows (cs.row k) (b' k)) (sym same) (r k))

    pub credit-IsReached :
        (k : RowId) (m : R.F) (s t : Store R)
        → R.le m (R.lit 0 0) ≡ false
        → IsReached b s
        → on_credits (upsert_row k (depositor k m) (add_available m)) s ≡ some t
        → IsReached b t
    credit-IsReached k m s t positive (b', ms, r) e =
        let same : upsert_row k (depositor k m) (add_available m) s.credits ≡ t.credits =
          ground arith in
        (
          move (top_up k m) b',
          moved ms (top_up k m) positive,
          subst (λ cs. (j : RowId) → Shows (cs.row j) (move (top_up k m) b' j)) same
              (upsert-Represents s k (depositor k m) (add_available m) b' _ r (depositor-Shows k m)
                (add_available-Shows m)),
        )

    pub earn-IsReached :
        (k : RowId) (x locked_nmc : R.F) (s t : Store R)
        → let cost = R.min_f64 x locked_nmc in
          let gets = R.sub cost (fee_of R cost) in
          IsReached b s
          → on_credits (upsert_row k (earning k gets) (earn_credit gets)) s ≡ some t
          → IsReached b t
    earn-IsReached k x locked_nmc s t (b', ms, r) e =
        let cost = R.min_f64 x locked_nmc in
        let gets = R.sub cost (fee_of R cost) in
        let same : upsert_row k (earning k gets) (earn_credit gets) s.credits ≡ t.credits =
          ground arith in
        (
          move (pay_provider k cost) b',
          moved ms (pay_provider k cost) (x, locked_nmc, refl),
          subst (λ cs. (j : RowId) → Shows (cs.row j) (move (pay_provider k cost) b' j)) same
              (upsert-Represents s k (earning k gets) (earn_credit gets) b' _ r
                (earning-Shows k gets) (earn_credit-Shows gets)),
        )

    -- A row that has no account stays out, one that is changed shows what the move makes of it.
    pub update-IsReached :
        (k : RowId) (g : Credit R → Credit R) (w : Movement R) (f : Holding R → Holding R)
        (s : Store R)
        → ((b' : Balances R) → move w b' ≡ change k f b')
        → ((c : Credit R) (b' : Balances R)
            → s.credits.row k ≡ some c
            → Shows (some c) (b' k)
            → (IsLegal w b' × Shows (some (g c)) (f (b' k))) ⊎ Shows (some (g c)) (b' k))
        → IsReached b s
        → IsReached b (record s { credits = update_key k g s.credits })
    update-IsReached k g w f s is step (b', ms, r) = elim (Option-cases (s.credits.row k)) [
      | inl missing ↦ stay (rw (eqb_refl k, missing) (subst (λ o. Shows o (b' k)) missing (r k)))
      | inr (c, row) ↦ elim (step c b' row (subst (λ o. Shows o (b' k)) row (r k))) [
        | inl (legal, shown) ↦ (
          move w b',
          moved ms w legal,
          subst (λ d. (j : RowId) → Shows ((update_key k g s.credits).row j) (d j)) (sym (is b'))
              (set-Represents s.credits (update_key k g s.credits) k f b' r (λ j ne. rw ne refl)
                (rw (eqb_refl k, row) shown)),
        )
        | inr same ↦ stay (rw (eqb_refl k, row) same)
      ]
    ]
      where
        stay :
            Shows ((update_key k g s.credits).row k) (b' k)
            → IsReached b (record s { credits = update_key k g s.credits })
        stay shown = (
          b',
          ms,
          λ j. elim (Bool-cases (k == j)) [
            | inr ne ↦ rw ne (r j)
            | inl eq ↦
                subst (λ i. Shows ((update_key k g s.credits).row i) (b' i)) (eqb→eq k j eq) shown
          ],
        )

    pub debit-IsReached :
        (k : RowId) (m : R.F) (s : Store R)
        → R.le m (R.lit 0 0) ≡ false
        → IsReached b s
        → IsReached b (debit_where k m (withdraw_credit m) s).1
    debit-IsReached k m s positive =
        update-IsReached k (λ c. if has_available m c then withdraw_credit m c else c)
          (take_out k m) (λ h. record h { free = R.sub h.free m }) s (λ b'. refl)
          (λ c b' row (free, held). elim (Bool-cases (R.le m (b' k).free)) [
            | inl enough ↦ inl ((positive, enough), rw (free, enough) (refl, held))
            | inr short ↦ inr (rw (free, short) (refl, held))
          ])

    pub hold-IsReached :
        (k : RowId) (m : R.F) (s : Store R)
        → IsReached b s
        → IsReached b (debit_where k m (lock_credit m) s).1
    hold-IsReached k m s =
        update-IsReached k (λ c. if has_available m c then lock_credit m c else c) (set_aside k m)
          (λ h. record { free = R.sub h.free m; held = R.add h.held m }) s (λ b'. refl)
          (λ c b' row (free, held). elim (Bool-cases (R.le m (b' k).free)) [
            | inl enough ↦ inl (enough, rw (free, enough, held) (refl, refl))
            | inr short ↦ inr (rw (free, short) (refl, held))
          ])

    pub settle-IsReached :
        (k : RowId) (x locked_nmc : R.F) (s t : Store R)
        → let cost = R.min_f64 x locked_nmc in
          IsReached b s
          → on_credits (update_key k (settle_credit locked_nmc (R.sub locked_nmc cost))) s ≡ some t
          → IsReached b t
    settle-IsReached k x locked_nmc s t h e =
        let cost = R.min_f64 x locked_nmc in
        let g = settle_credit locked_nmc (R.sub locked_nmc cost) in
        let same : t.credits ≡ update_key k g s.credits = ground arith in
        same_credits (record s { credits = update_key k g s.credits }) t
          (update-IsReached k g (settle_up k locked_nmc cost)
            (λ h. record {
              free = R.add h.free (R.sub locked_nmc cost);
              held = R.sub h.held locked_nmc;
            })
            s (λ b'. refl) (λ c b' row (free, held). inl ((x, refl), rw (free, held) (refl, refl)))
            h)
          same

    pub insert_transaction-IsReached :
        (w : Transaction R) (s t : Store R)
        → IsReached b s
        → insert_transaction w s ≡ some t
        → IsReached b t
    insert_transaction-IsReached w s t h e = same_credits s t h (ground arith)

    pub insert_escrow-IsReached :
        (w : Escrow R) (s t : Store R) → IsReached b s → insert_escrow w s ≡ some t → IsReached b t
    insert_escrow-IsReached w s t h e = same_credits s t h (ground arith)

    pub on_escrows-IsReached :
        (f : Table (Escrow R) → Table (Escrow R)) (s t : Store R)
        → IsReached b s
        → on_escrows f s ≡ some t
        → IsReached b t
    on_escrows-IsReached f s t h e = same_credits s t h (ground arith)

    pub open-IsReached :
        (k : RowId) (s t : Store R)
        → IsReached b s
        → on_credits (upsert_row k (empty_credit k) (λ c. c)) s ≡ some t
        → IsReached b t
    open-IsReached k s t (b', ms, r) e =
        let same : upsert_row k (empty_credit k) (λ c. c) s.credits ≡ t.credits = ground arith in
        (
          b',
          ms,
          subst (λ cs. (j : RowId) → Shows (cs.row j) (b' j)) same
              (λ j. unchanged k j b' _ (
                upsert-Represents s k (empty_credit k) (λ c. c) b' (λ h. h) r
                  (λ h (free, held). (cc free, cc held)) (λ c h shown. shown) j)),
        )
