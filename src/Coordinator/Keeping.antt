-- ===== src/Coordinator/Keeping.antt =====
-- Handlers that keep a property of the database on every path, whatever statements fail: composed from
-- their statements.
use neuralmesh.Common.{◌≡◌, inr, refl, none, inl, Option, some, Bool-cases, true, false, Bool}
use neuralmesh.Coordinator.Rows.{Store}
use neuralmesh.Coordinator.Store.{
  written, Conn, ◌>>=◌, exec, bind_reply, next_fails, Reply, err, query, ok, drop_fault, Db, ◌>>◌,
  Status, fail_if, pure, get_now, ignore, exec_returning, or_fail, attempted,
}
use neuralmesh.Float.{Float}

module _ {R : Float} (P : Store R → Type 0) where
  pub record Keeps {A : Type 0} (m : Db R A) : Type 0 where
    pub run : (c : Conn R) → P c.store → P (m c).1.store

  bind_reply-Keeps :
      {A B : Type 0} (r : Reply A) (f : A → Db R B) (c : Conn R)
      → ((a : A) → Keeps (f a))
      → P c.store
      → P (bind_reply r f c).1.store
  bind_reply-Keeps (ok a) f c k h = (k a).run c h
  bind_reply-Keeps (err e) f c k h = h

  pub bind-Keeps :
      {A B : Type 0} {m : Db R A} {f : A → Db R B}
      → Keeps m
      → ((a : A) → Keeps (f a))
      → Keeps (m >>= f)
  bind-Keeps {m = m} {f = f} k l = record {
    run = λ c h. bind_reply-Keeps (m c).0 f (m c).1 l (k.run c h);
  }

  pub then-Keeps : {A B : Type 0} {m : Db R A} {n : Db R B} → Keeps m → Keeps n → Keeps (m >> n)
  then-Keeps {m = m} {n = n} k l = record {
    run = λ c h. bind_reply-Keeps (m c).0 (λ _. n) (m c).1 (λ _. l) (k.run c h);
  }

  pub pure-Keeps : {A : Type 0} {a : A} → Keeps (pure a)
  pure-Keeps = record { run = λ c h. h }

  pub fail_if-Keeps : (b : Bool) (e : Status) → Keeps (fail_if b e)
  fail_if-Keeps true e = record { run = λ c h. h }
  fail_if-Keeps false e = record { run = λ c h. h }

  pub query-Keeps : {A : Type 0} (f : Store R → A) → Keeps (query f)
  query-Keeps f = record {
    run = λ c h. elim (Bool-cases (next_fails c.faults)) [
      | inl failing ↦ rw failing h
      | inr fine ↦ rw fine h
    ];
  }

  written-Keeps :
      (o : Option (Store R)) (c : Conn R)
      → ((s : Store R) → o ≡ some s → P s)
      → P c.store
      → P (written o c).1.store
  written-Keeps none c k h = h
  written-Keeps (some s) c k h = k s refl

  pub exec-Keeps :
      {f : Store R → Option (Store R)}
      → ((s t : Store R) → P s → f s ≡ some t → P t)
      → Keeps (exec f)
  exec-Keeps {f = f} k = record {
    run = λ c h. elim (Bool-cases (next_fails c.faults)) [
      | inl failing ↦ rw failing h
      | inr fine ↦ rw fine (
          written-Keeps (f c.store) (record c { faults = drop_fault c.faults })
            (λ s e. k c.store s h e) h)
    ];
  }

  pub exec_returning-Keeps :
      {A : Type 0} (f : Store R → A × Store R)
      → ((s : Store R) → P s → P (f s).1)
      → Keeps (exec_returning f)
  exec_returning-Keeps f k = record {
    run = λ c h. elim (Bool-cases (next_fails c.faults)) [
      | inl failing ↦ rw failing h
      | inr fine ↦ rw fine (k c.store h)
    ];
  }

  -- A guard that lets the rest run only where the test is false.
  pub guard-Keeps :
      {A : Type 0} (b : Bool) (e : Status) {n : Db R A}
      → (b ≡ false → Keeps n)
      → Keeps (fail_if b e >> n)
  guard-Keeps true e k = record { run = λ c h. h }
  guard-Keeps false e k = record { run = (k refl).run }

  pub or_fail-Keeps : {A : Type 0} (o : Option A) (e : Status) → Keeps (or_fail o e)
  or_fail-Keeps none e = record { run = λ c h. h }
  or_fail-Keeps (some a) e = record { run = λ c h. h }

  pub get_now-Keeps : Keeps get_now
  get_now-Keeps = record { run = λ c h. h }

  pub ignore-Keeps : {m : Db R (Unit {0})} → Keeps m → Keeps (ignore m)
  ignore-Keeps k = record { run = k.run }

  pub attempted-Keeps : {A : Type 0} {m : Db R A} → Keeps m → Keeps (attempted m)
  attempted-Keeps k = record { run = k.run }
