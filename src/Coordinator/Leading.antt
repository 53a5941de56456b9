-- ===== src/Coordinator/Leading.antt =====
-- Handlers that lead from one property of the database to another where they succeed, and to a third where
-- they end with an error, whatever statements fail: composed from their statements.
use neuralmesh.Common.{none, inl, ◌≡◌, Bool, refl, true, inr, Option, false, some, Bool-cases}
use neuralmesh.Coordinator.Rows.{Store}
use neuralmesh.Coordinator.Store.{
  ◌>>◌, err, ok, ◌>>=◌, Status, next_fails, Reply, written, Conn, fail_if, exec, bind_reply, pure,
  Db, query, drop_fault,
}
use neuralmesh.Float.{Float}

module _ {R : Float} (E : Store R → Type 0) where
  -- What holds of the database, by the answer.
  abbrev pub Ends : {A : Type 0} → (Store R → Type 0) → Reply A → Store R → Type 0
  Ends Q (ok a) s = Q s
  Ends Q (err e) s = E s

  pub record Leads {A : Type 0} (P Q : Store R → Type 0) (m : Db R A) : Type 0 where
    pub run : (c : Conn R) → P c.store → Ends Q (m c).0 (m c).1.store

  bind_reply-Leads :
      {A B : Type 0} {P Q : Store R → Type 0} (r : Reply A) (f : A → Db R B) (c : Conn R)
      → ((a : A) → Leads P Q (f a))
      → Ends P r c.store
      → Ends Q (bind_reply r f c).0 (bind_reply r f c).1.store
  bind_reply-Leads (ok a) f c k h = (k a).run c h
  bind_reply-Leads (err e) f c k h = h

  pub then-Leads :
      {A B : Type 0} {P Q S : Store R → Type 0} {m : Db R A} {n : Db R B}
      → Leads P Q m
      → Leads Q S n
      → Leads P S (m >> n)
  then-Leads {m = m} {n = n} k l = record {
    run = λ c h. bind_reply-Leads (m c).0 (λ _. n) (m c).1 (λ _. l) (k.run c h);
  }

  pub pure-Leads : {A : Type 0} {P : Store R → Type 0} {a : A} → Leads P P (pure a)
  pure-Leads = record { run = λ c h. h }

  -- What is read is known after the query.
  pub query-Leads :
      {A B : Type 0} {P Q : Store R → Type 0} (f : Store R → A) {k : A → Db R B}
      → ((s : Store R) → P s → E s)
      → ((a : A) → Leads (λ s. P s × (f s ≡ a)) Q (k a))
      → Leads P Q (query f >>= k)
  query-Leads f {k = k} stop go = record {
    run = λ c h. elim (Bool-cases (next_fails c.faults)) [
      | inl failing ↦ rw failing (stop c.store h)
      | inr fine ↦
          rw fine ((go (f c.store)).run (record c { faults = drop_fault c.faults }) (h, refl))
    ];
  }

  pub fail_if-Leads :
      {P Q : Store R → Type 0} (b : Bool) (e : Status)
      → ((s : Store R) → P s → E s)
      → ((s : Store R) → P s → b ≡ false → Q s)
      → Leads P Q (fail_if b e)
  fail_if-Leads true e stop go = record { run = λ c h. stop c.store h }
  fail_if-Leads false e stop go = record { run = λ c h. go c.store h refl }

  written-Leads :
      {Q : Store R → Type 0} (o : Option (Store R)) (c : Conn R)
      → ((t : Store R) → o ≡ some t → Q t)
      → E c.store
      → Ends Q (written o c).0 (written o c).1.store
  written-Leads none c k h = h
  written-Leads (some s) c k h = k s refl

  pub exec-Leads :
      {P Q : Store R → Type 0} {f : Store R → Option (Store R)}
      → ((s : Store R) → P s → E s)
      → ((s t : Store R) → P s → f s ≡ some t → Q t)
      → Leads P Q (exec f)
  exec-Leads {Q = Q} {f = f} stop k = record {
    run = λ c h. elim (Bool-cases (next_fails c.faults)) [
      | inl failing ↦ rw failing (stop c.store h)
      | inr fine ↦ rw fine (
          written-Leads {Q = Q} (f c.store) (record c { faults = drop_fault c.faults })
            (λ t e. k c.store t h e) (stop c.store h))
    ];
  }
