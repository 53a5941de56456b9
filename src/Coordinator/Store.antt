-- ===== src/Coordinator/Store.antt =====
-- The statements of a handler on the database. A handler runs no transaction: each statement takes
-- effect by itself, and any of them may fail.
-- A connection: the store, the time, which of the coming statements fail, whether the oracle is
-- enabled, and what has been sent to it.
use mathlib.Core.Option
use neuralmesh.Common.{
  ◌∷◌, false, List, true, Bool, refl, ◌≡◌, ℕ, some, [], none, Option, if◌then◌else◌,
}
use neuralmesh.Coordinator.Rows.{Credit, OracleCall, Store, Escrow, Provider, Job, Transaction}
use neuralmesh.Database.{insert_row, Table}
use neuralmesh.Float.{Float}

pub record Conn (R : Float) : Type 0 where
  pub store : Store R
  pub now : ℕ
  pub faults : List Bool
  pub oracle_enabled : Bool
  pub oracle_calls : List (OracleCall R)

pub data Status : Type 0 where
  internal_error not_found bad_request unauthorized payment_required : Status

pub data Reply (A : Type 0) : Type 0 where
  ok : A → Reply A
  err : Status → Reply A

abbrev pub Db : Float → Type 0 → Type 0
Db R A = Conn R → Reply A × Conn R

abbrev pub next_fails : List Bool → Bool
next_fails [] = false
next_fails (b ∷ bs) = b

abbrev pub drop_fault : List Bool → List Bool
drop_fault [] = []
drop_fault (b ∷ bs) = bs

infixl 5 ◌>>=◌ ◌>>◌
abbrev pub bind_reply :
    {R : Float} {A B : Type 0} → Reply A → (A → Db R B) → Conn R → Reply B × Conn R
bind_reply (ok a) f c = f a c
bind_reply (err e) f c = (err e, c)

abbrev pub ◌>>=◌ : {R : Float} {A B : Type 0} → Db R A → (A → Db R B) → Db R B
◌>>=◌ m f c = bind_reply (m c).0 f (m c).1

abbrev pub ◌>>◌ : {R : Float} {A B : Type 0} → Db R A → Db R B → Db R B
m >> k = m >>= λ _. k

abbrev pub pure : {R : Float} {A : Type 0} → A → Db R A
pure a c = (ok a, c)

abbrev pub fail : {R : Float} {A : Type 0} → Status → Db R A
fail e c = (err e, c)

-- `if b { return Err(status) }`
abbrev pub fail_if : {R : Float} → Bool → Status → Db R (Unit {0})
fail_if b e c = if b then (err e, c) else (ok tt, c)

-- `.ok_or(status)?`
abbrev pub or_fail : {R : Float} {A : Type 0} → Option A → Status → Db R A
or_fail none e = fail e
or_fail (some a) e = pure a

abbrev pub get_now : {R : Float} → Db R ℕ
get_now c = (ok c.now, c)

abbrev pub get_oracle : {R : Float} → Db R Bool
get_oracle c = (ok c.oracle_enabled, c)

-- A statement that reads: it fails with the connection, or gives its rows.
abbrev pub query : {R : Float} {A : Type 0} → (Store R → A) → Db R A
query f c =
    if next_fails c.faults
    then (err internal_error, record c { faults = drop_fault c.faults })
    else (ok (f c.store), record c { faults = drop_fault c.faults })

-- A statement that writes, with `?`: it fails with the connection or on a constraint.
abbrev pub written : {R : Float} → Option (Store R) → Conn R → Reply (Unit {0}) × Conn R
written none c = (err internal_error, c)
written (some s) c = (ok tt, record c { store = s })

abbrev pub exec : {R : Float} → (Store R → Option (Store R)) → Db R (Unit {0})
exec f c =
    if next_fails c.faults
    then (err internal_error, record c { faults = drop_fault c.faults })
    else written (f c.store) (record c { faults = drop_fault c.faults })

-- An UPDATE of which `rows_affected()` or the RETURNING row is read.
abbrev pub exec_returning : {R : Float} {A : Type 0} → (Store R → A × Store R) → Db R A
exec_returning f c =
    if next_fails c.faults
    then (err internal_error, record c { faults = drop_fault c.faults })
    else (ok (f c.store).0, record c { store = (f c.store).1; faults = drop_fault c.faults })

-- `let _ = ….await`: the failure is dropped.
abbrev pub ignore : {R : Float} → Db R (Unit {0}) → Db R (Unit {0})
ignore m c = (ok tt, (m c).1)

-- A request whose reply is dropped.
abbrev pub attempted : {R : Float} {A : Type 0} → Db R A → Db R (Unit {0})
attempted m c = (ok tt, (m c).1)

-- `.ok()` and `.unwrap_or(d)`: a failure is read as a default.
abbrev pub or_default : {R : Float} {A : Type 0} → A → Reply A × Conn R → Reply A × Conn R
or_default d (ok a, c) = (ok a, c)
or_default d (err e, c) = (ok d, c)

abbrev pub recover : {R : Float} {A : Type 0} → A → Db R A → Db R A
recover d m c = or_default d (m c)

-- `if state.oracle.enabled { spawn … }`
abbrev pub send_oracle : {R : Float} → OracleCall R → Db R (Unit {0})
send_oracle k c = (
  ok tt,
  record c { oracle_calls = if c.oracle_enabled then k ∷ c.oracle_calls else c.oracle_calls },
)

-- UPDATE statements on each table, which violate no constraint.
abbrev pub on_jobs : {R : Float} → (Table (Job R) → Table (Job R)) → Store R → Option (Store R)
on_jobs f s = some (record s { jobs = f s.jobs })

abbrev pub on_providers :
    {R : Float} → (Table (Provider R) → Table (Provider R)) → Store R → Option (Store R)
on_providers f s = some (record s { providers = f s.providers })

abbrev pub on_credits :
    {R : Float} → (Table (Credit R) → Table (Credit R)) → Store R → Option (Store R)
on_credits f s = some (record s { credits = f s.credits })

abbrev pub on_escrows :
    {R : Float} → (Table (Escrow R) → Table (Escrow R)) → Store R → Option (Store R)
on_escrows f s = some (record s { escrows = f s.escrows })

-- INSERT INTO transactions
abbrev pub insert_transaction : {R : Float} → Transaction R → Store R → Option (Store R)
insert_transaction t s =
    Option.map (λ ts. record s { transactions = ts }) (insert_row t.tx_id t s.transactions)

-- INSERT INTO escrows: the job must exist.
abbrev pub insert_for : {R : Float} → Option (Job R) → Escrow R → Store R → Option (Store R)
insert_for none e s = none
insert_for (some j) e s =
    Option.map (λ es. record s { escrows = es }) (insert_row e.escrow_id e s.escrows)

abbrev pub insert_escrow : {R : Float} → Escrow R → Store R → Option (Store R)
insert_escrow e s = insert_for (s.jobs.row e.job_id) e s

-- Arithmetic on columns that may be NULL.
abbrev pub add_null : (R : Float) → Option R.F → Option R.F → Option R.F
add_null R (some a) (some b) = some (R.add a b)
add_null R _ _ = none

abbrev pub sub_null : (R : Float) → Option R.F → Option R.F → Option R.F
sub_null R (some a) (some b) = some (R.sub a b)
sub_null R _ _ = none

-- GREATEST(a, x) ignores a NULL.
abbrev pub greatest_null : (R : Float) → R.F → Option R.F → Option R.F
greatest_null R a (some b) = some (R.greatest a b)
greatest_null R a none = some a

-- `x >= y` in a WHERE clause is not true of NULL.
abbrev pub at_least : (R : Float) → Option R.F → R.F → Bool
at_least R none y = false
at_least R (some x) y = R.le y x

abbrev pub is_null : {A : Type 0} → Option A → Bool
is_null none = true
is_null (some _) = false

abbrev pub unwrap_or : {A : Type 0} → Option A → A → A
unwrap_or none d = d
unwrap_or (some a) d = a

-- To prove that what holds before a handler holds after it, step by step, on every path.
bind_reply-ends :
    {R : Float} {A B : Type 0} (P : Conn R → Type 0) (r : Reply A) (f : A → Db R B) (c : Conn R)
    → P c
    → ((a : A) → r ≡ ok a → P (f a c).1)
    → P (bind_reply r f c).1
bind_reply-ends P (ok a) f c stop go = go a refl
bind_reply-ends P (err e) f c stop go = stop

pub bind-ends :
    {R : Float} {A B : Type 0} (P : Conn R → Type 0) (m : Db R A) (f : A → Db R B) (c : Conn R)
    → P (m c).1
    → ((a : A) → (m c).0 ≡ ok a → P (f a (m c).1).1)
    → P ((m >>= f) c).1
bind-ends P m f c stop go = bind_reply-ends P (m c).0 f (m c).1 stop go
