-- ===== src/Ledger/Accounts.antt =====
-- What the ledger service promises: balances, and the movements between them. An account that does not
-- exist holds nothing.
use neuralmesh.Common.{Option, true, some, false, none, ◌≡◌, ◌==◌, if◌then◌else◌}
use neuralmesh.Coordinator.Rows.{Store, Credit}
use neuralmesh.Database.{RowId}
use neuralmesh.Float.{Float}

pub record Holding (R : Float) : Type 0 where
  pub free : R.F
  pub held : R.F

module _ (R : Float) where
  abbrev pub Balances : Type 0
  Balances = RowId → Holding R

  -- `settle_up k locked cost` ends a lock of k: what was locked beyond the cost is free again.
  pub data Movement : Type 0 where
    top_up : (k : RowId) (m : R.F) → Movement
    take_out : (k : RowId) (m : R.F) → Movement
    set_aside : (k : RowId) (m : R.F) → Movement
    settle_up : (k : RowId) (locked_nmc cost : R.F) → Movement
    pay_provider : (k : RowId) (cost : R.F) → Movement

module _ {R : Float} where
  abbrev pub change : RowId → (Holding R → Holding R) → Balances R → Balances R
  change k f b = λ j. if k == j then f (b j) else b j

  abbrev pub move : Movement R → Balances R → Balances R
  move (top_up k m) = change k (λ h. record h { free = R.add h.free m })
  move (take_out k m) = change k (λ h. record h { free = R.sub h.free m })
  move (set_aside k m) = change k (λ h. record { free = R.sub h.free m; held = R.add h.held m })
  move (settle_up k locked_nmc cost) =
      change k (λ h. record {
        free = R.add h.free (R.sub locked_nmc cost);
        held = R.sub h.held locked_nmc;
      })
  move (pay_provider k cost) =
      change k (λ h. record h { free = R.add h.free (R.sub cost (R.mul cost (R.lit 8 2))) })

  -- Only a positive amount is deposited or withdrawn, no debit or lock exceeds what is free, and the
  -- cost of a settlement is cut off at an amount, which is not compared with a lock.
  abbrev pub IsLegal : Movement R → Balances R → Type 0
  IsLegal (top_up k m) b = R.le m (R.lit 0 0) ≡ false
  IsLegal (take_out k m) b = (R.le m (R.lit 0 0) ≡ false) × (R.le m (b k).free ≡ true)
  IsLegal (set_aside k m) b = R.le m (b k).free ≡ true
  IsLegal (settle_up k locked_nmc cost) b = (x : R.F) × (cost ≡ R.min_f64 x locked_nmc)
  IsLegal (pay_provider k cost) b = (x locked_nmc : R.F) × (cost ≡ R.min_f64 x locked_nmc)

  pub data Moves (b : Balances R) : Balances R → Type 0 where
    start : Moves b b
    moved : {b' : Balances R} → Moves b b' → (w : Movement R) → IsLegal w b' → Moves b (move w b')

  -- An account shows a holding.
  abbrev pub Shows : Option (Credit R) → Holding R → Type 0
  Shows none h = (h.free ≡ R.lit 0 0) × (h.held ≡ R.lit 0 0)
  Shows (some c) h = (c.available_nmc ≡ some h.free) × (c.escrowed_nmc ≡ some h.held)

  abbrev pub Represents : Store R → Balances R → Type 0
  Represents s b = (k : RowId) → Shows (s.credits.row k) (b k)
