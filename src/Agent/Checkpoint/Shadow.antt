-- ===== src/Agent/Checkpoint/Shadow.antt =====
-- The checkpoints that a session of a job reports, and the one that the coordinator gives out.
use mathlib.Core.Option
use mathlib.Core.Option.{some-injective}
use neuralmesh.Common.{
  refl, ℕ, Option, [], arith, none, inl, List, ◌∷◌, inr, ◌≡◌, ◌<◌, some, ◌+◌, Bool, ◌++◌, ◌&&◌,
  ◌==◌, if◌then◌else◌, Bool-cases, All, length, false, ap, ◌∙◌, subst, sym, Option-cases,
}
use neuralmesh.Agent.Checkpoint.{Ticker, Tick, ticker_from, checkpoint_ticker}
use neuralmesh.Common.Int.{pos, ltb_ℤ}
use neuralmesh.Coordinator.Checkpoints.{
  save_checkpoint, CheckpointBody, latest, insert_checkpoint, CheckpointReply, get_checkpoint,
  mark_checkpoint, reply_of,
}
use neuralmesh.Coordinator.Keeping.{
  get_now-Keeps, exec-Keeps, pure-Keeps, Keeps, then-Keeps, bind-Keeps, attempted-Keeps,
}
use neuralmesh.Coordinator.Rows.{Checkpoint, Store, Job}
use neuralmesh.Coordinator.Store.{
  ok, ◌>>◌, Db, pure, on_jobs, is_null, err, not_found, Conn, attempted,
}
use neuralmesh.Database.{RowId, keep_if, scan, Table, insert_row, update_key}
use neuralmesh.Database.Rows.{IsListed, add_row-scan}
use neuralmesh.Float.{Float}

module _ {R : Float} where
  -- The reports of a session, one after the under new ids.
  unfoldable pub save_all : RowId → (ℕ → RowId) → ℕ → List CheckpointBody → Db R (Unit {0})
  save_all job_id uuid n [] = pure tt
  save_all job_id uuid n (b ∷ bs) = do
    attempted (save_checkpoint job_id b (uuid n))
    save_all job_id uuid (n + 1) bs

latest-append :
    (best : Option Checkpoint) (xs ys : List Checkpoint)
    → latest best (xs ++ ys) ≡ latest (latest best xs) ys
unfolding latest
latest-append best [] ys = refl
latest-append none (x ∷ xs) ys = latest-append (some x) xs ys
latest-append (some b) (x ∷ xs) ys =
    latest-append (some (if ltb_ℤ b.iteration x.iteration then x else b)) xs ys

-- A body that is not newer than the m-th iteration.
abbrev IsOlder : ℕ → CheckpointBody → Type 0
IsOlder m b = (i : ℕ) × (b.iteration ≡ pos i) × (i < m)

ticker_from-IsOlder :
    (s : Ticker) (i m : ℕ) (ts : List Tick)
    → i + length ts < m
    → All (IsOlder m) (ticker_from s i ts)
unfolding ticker_from
ticker_from-IsOlder s i m [] h = tt
ticker_from-IsOlder s i m (t ∷ ts) h =
    let rest = ticker_from-IsOlder s (i + 1) m ts (omega arith) in
    elim (Bool-cases (t.succeeds && (t.is_saved && t.arrives))) [
      | inl reported ↦ rw reported ((i + 1, refl, omega arith), rest)
      | inr silent ↦ rw silent rest
    ]

module _ (job_id : RowId) (top : Checkpoint) (m : ℕ) (newest : top.iteration ≡ pos m) where
  abbrev is_of_job : Checkpoint → Bool
  is_of_job k = k.job_id == job_id

  older_ends :
      (k : Checkpoint) (i : ℕ)
      → k.iteration ≡ pos i
      → i < m
      → latest (some top) (keep_if is_of_job (some k) []) ≡ some top
  unfolding latest
  older_ends k i e h =
      let no_newer : ltb_ℤ top.iteration k.iteration ≡ false = rw (newest, e) (ground arith) in
      elim (Bool-cases (is_of_job k)) [
        | inl mine ↦ rw (mine, no_newer) refl
        | inr apart ↦ rw apart refl
      ]

  module _ {R : Float} where
    abbrev IsTop : Store R → Type 0
    IsTop s = IsListed s.checkpoints × (latest none (scan is_of_job s.checkpoints) ≡ some top)

    added-IsTop :
        (k : Checkpoint) (i : ℕ) (s t : Store R) (o : Option (Table Checkpoint))
        → k.iteration ≡ pos i
        → i < m
        → IsTop s
        → insert_row k.checkpoint_id k s.checkpoints ≡ o
        → Option.map (λ ks. record s { checkpoints = ks }) o ≡ some t
        → IsTop t
    added-IsTop k i s t none e h top_before new inserted = absurd (ground arith)
    added-IsTop k i s t (some u) e h (listed, first_one) new inserted =
        let grown = add_row-scan is_of_job k.checkpoint_id k s.checkpoints u _ refl listed new in
        let same : u ≡ t.checkpoints = ap (λ v. v.checkpoints) (some-injective _ _ inserted) in
        subst (λ v. IsListed v × (latest none (scan is_of_job v) ≡ some top)) same
          (
            grown.0,
            rw grown.1 (
                latest-append none (scan is_of_job s.checkpoints) (keep_if is_of_job (some k) [])
                ∙ rw first_one (older_ends k i e h)),
          )

    insert_checkpoint-IsTop :
        (k : Checkpoint) (i : ℕ) (s t : Store R)
        → k.iteration ≡ pos i
        → i < m
        → IsTop s
        → insert_checkpoint k s ≡ some t
        → IsTop t
    insert_checkpoint-IsTop k i s t e h top_before inserted =
        elim (Bool-cases (is_null (s.jobs.row k.job_id))) [
          | inl missing ↦ absurd (ground (arith, missing, inserted))
          | inr found ↦ added-IsTop k i s t _ e h top_before refl (rw found at inserted)
        ]

    on_jobs-IsTop :
        (f : Table (Job R) → Table (Job R)) (s t : Store R)
        → IsTop s
        → on_jobs f s ≡ some t
        → IsTop t
    on_jobs-IsTop f s t h e = subst IsTop (some-injective _ _ e) h

    save_checkpoint-IsTop :
        (body : CheckpointBody) (ckpt_id : RowId)
        → IsOlder m body
        → Keeps IsTop (save_checkpoint job_id body ckpt_id)
    unfolding save_checkpoint
    save_checkpoint-IsTop body ckpt_id (i, e, h) =
        then-Keeps IsTop (exec-Keeps IsTop (λ s t. insert_checkpoint-IsTop _ i s t e h)) (
          bind-Keeps IsTop (get_now-Keeps IsTop) (λ now.
            then-Keeps IsTop
              (exec-Keeps IsTop (on_jobs-IsTop (update_key job_id (mark_checkpoint now body))))
              (pure-Keeps IsTop)))

    save_all-IsTop :
        (uuid : ℕ → RowId) (n : ℕ) (bs : List CheckpointBody)
        → All (IsOlder m) bs
        → Keeps IsTop (save_all job_id uuid n bs)
    unfolding save_all
    save_all-IsTop uuid n [] all = pure-Keeps IsTop
    save_all-IsTop uuid n (b ∷ bs) (older, all) =
        then-Keeps IsTop (attempted-Keeps IsTop (save_checkpoint-IsTop b (uuid n) older))
          (save_all-IsTop uuid (n + 1) bs all)

module _ {R : Float} where
  given_out :
      (job_id : RowId) (c : Conn R) (top : Checkpoint)
      → latest none (scan (λ k. k.job_id == job_id) c.store.checkpoints) ≡ some top
      → (get_checkpoint job_id (record c { faults = [] })).0 ≡ ok (reply_of job_id top)
  unfolding get_checkpoint
  given_out job_id c top e = rw e refl

  nothing_given :
      (job_id : RowId) (c : Conn R)
      → latest none (scan (λ k. k.job_id == job_id) c.store.checkpoints) ≡ none
      → (get_checkpoint job_id (record c { faults = [] })).0 ≡ err not_found
  unfolding get_checkpoint
  nothing_given job_id c e = rw e refl

  -- A session of fewer rounds than the iteration of the checkpoint that the coordinator gives out
  -- leaves it the one that is given out, whatever of its reports arrive and whatever statements fail:
  -- a job that is restored again starts from the old checkpoint. Every id of a checkpoint has its row.
  pub checkpoint_ticker-get_checkpoint :
      (s : Ticker) (ts : List Tick) (uuid : ℕ → RowId) (c : Conn R) (r : CheckpointReply) (m : ℕ)
      → IsListed c.store.checkpoints
      → (get_checkpoint s.job_id (record c { faults = [] })).0 ≡ ok r
      → r.iteration ≡ pos m
      → length ts < m
      → let after = (save_all s.job_id uuid 0 (checkpoint_ticker s ts) c).1 in
        (get_checkpoint s.job_id (record after { faults = [] })).0 ≡ ok r
  unfolding checkpoint_ticker
  checkpoint_ticker-get_checkpoint s ts uuid c r m listed given newest few =
      elim (Option-cases (latest none (scan (λ k. k.job_id == s.job_id) c.store.checkpoints))) [
        | inl nothing ↦ absurd (ground (arith, nothing_given s.job_id c nothing, given))
        | inr (top, e) ↦
            let reply : ok (reply_of s.job_id top) ≡ ok r =
              sym (given_out s.job_id c top e) ∙ given in
            let bound : top.iteration ≡ pos m = ground arith in
            let older = ticker_from-IsOlder s 0 m ts (omega arith) in
            let kept =
              (save_all-IsTop s.job_id top m bound uuid 0 (ticker_from s 0 ts) older).run c
                (listed, e) in
            let after = (save_all s.job_id uuid 0 (checkpoint_ticker s ts) c).1 in
            given_out s.job_id after top kept.1 ∙ reply
      ]
