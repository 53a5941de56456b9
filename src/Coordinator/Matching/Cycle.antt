-- ===== src/Coordinator/Matching/Cycle.antt =====
-- One cycle of the auction, with whatever database faults: what it leaves alone.
use neuralmesh.Common.{
  some, none, ◌≢◌, Option, ◌≡◌, arith, true, false, inl, subst, List, ◌∷◌, [], inr, Option-cases,
  sym,
}
use neuralmesh.Common.Int.{ℤ, pos}
use neuralmesh.Coordinator.Matching.{
  is_available, find_best_provider, assign_found, attempt, assign_job, is_candidate, auction,
  queued_jobs, run_auction_cycle,
}
use neuralmesh.Coordinator.Matching.Ranking.{found-candidate}
use neuralmesh.Coordinator.Rows.{Provider, Job, Store}
use neuralmesh.Coordinator.Store.{unwrap_or, ◌>>◌, query, ok, bind-ends, Conn}
use neuralmesh.Database.{RowId}
use neuralmesh.Float.{Float}

module _ {R : Float} where
  -- Each provider's row stands under its provider_id.
  abbrev pub IsKeyed : Store R → Type 0
  IsKeyed s = (k : RowId) (p : Provider R) → s.providers.row k ≡ some p → p.provider_id ≡ k

  find-store :
      (m : ℤ) (price : R.F) (c : Conn R)
      → (attempt (find_best_provider m price) c).1.store ≡ c.store
  unfolding find_best_provider
  find-store m price c = ground arith

  attempt-eq-ok :
      (m : ℤ) (price : R.F) (c : Conn R) (k : RowId)
      → (attempt (find_best_provider m price) c).0 ≡ ok (some k)
      → (find_best_provider m price c).0 ≡ ok (some k)
  unfolding find_best_provider
  attempt-eq-ok m price c k h = ground arith

  candidate_is_available :
      (m : ℤ) (price : R.F) (p : Provider R)
      → is_candidate m price p ≡ true
      → is_available p.state ≡ true
  unfolding is_candidate
  candidate_is_available m price p h = ground arith

  found_is_available :
      (m : ℤ) (price : R.F) (c : Conn R) (k : RowId) (p : Provider R)
      → IsKeyed c.store
      → (attempt (find_best_provider m price) c).0 ≡ ok (some k)
      → c.store.providers.row k ≡ some p
      → is_available p.state ≡ true
  found_is_available m price c k p keyed h row =
      let (b, same, (accepted, (j, there))) =
        found-candidate m price c k (attempt-eq-ok m price c k h) in
      let key : j ≡ k = cc (keyed j b there, same) in
      let is_b : b ≡ p = ground arith in
      subst (λ q. is_available q.state ≡ true) is_b (candidate_is_available m price b accepted)

  assign_found-keeps :
      (j : Job R) (found : Option RowId) (c : Conn R) (k : RowId) (p : Provider R)
      → (found ≢ some k)
      → c.store.providers.row k ≡ some p
      → (assign_found j found c).1.store.providers.row k ≡ some p
  unfolding assign_found assign_job
  assign_found-keeps j none c k p ne row = row
  assign_found-keeps j (some i) c k p ne row = ground arith

  assign_found-IsKeyed :
      (j : Job R) (found : Option RowId) (c : Conn R)
      → IsKeyed c.store
      → IsKeyed (assign_found j found c).1.store
  unfolding assign_found assign_job
  assign_found-IsKeyed j none c keyed k p row = keyed k p row
  assign_found-IsKeyed j (some i) c keyed k p row = elim (Option-cases (c.store.providers.row k)) [
    | inl e ↦ absurd (ground arith)
    | inr (q, e) ↦ ground (arith, keyed k q)
  ]

  -- What one job of the cycle, and then the whole of it, keeps of a provider that is not available.
  abbrev pub Keeps : RowId → Provider R → Conn R → Type 0
  Keeps k p c = IsKeyed c.store × (c.store.providers.row k ≡ some p)

  assign_found-Keeps :
      (j : Job R) (found : Option RowId) (c : Conn R) (k : RowId) (p : Provider R)
      → found ≢ some k
      → Keeps k p c
      → Keeps k p (assign_found j found c).1
  assign_found-Keeps j found c k p ne (keyed, row) =
      (assign_found-IsKeyed j found c keyed, assign_found-keeps j found c k p ne row)

  auction-Keeps :
      (js : List (Job R)) (c : Conn R) (k : RowId) (p : Provider R)
      → is_available p.state ≡ false
      → Keeps k p c
      → Keeps k p (auction js c).1
  unfolding auction
  auction-Keeps [] c k p busy keeps = keeps
  auction-Keeps (j ∷ js) c k p busy keeps =
      let m = unwrap_or j.min_ram_gb (pos 0) in
      let price = unwrap_or j.max_price_per_hour R.max_value in
      let found = attempt (find_best_provider m price) in
      let after : Keeps k p (found c).1 =
        subst (λ s. IsKeyed s × (s.providers.row k ≡ some p)) (sym (find-store m price c)) keeps in
      bind-ends (Keeps k p) found (λ a. assign_found j a >> auction js) c after
        (λ a e.
          let ne : a ≢ some k = λ is_k.
            let free = found_is_available m price c k p keeps.0 (cc (e, is_k)) keeps.1 in
            ground arith in
          let given = assign_found-Keeps j a (found c).1 k p ne after in
          bind-ends (Keeps k p) (assign_found j a) (λ _. auction js) (found c).1 given
            (λ _ _. auction-Keeps js (assign_found j a (found c).1).1 k p busy given))

  -- Whatever statements fail, a cycle of the auction leaves each provider that is not available
  -- when it starts as it is. The table of providers is keyed by their provider_id.
  pub run_auction_cycle-busy :
      (c : Conn R) (k : RowId) (p : Provider R)
      → IsKeyed c.store
      → c.store.providers.row k ≡ some p
      → is_available p.state ≡ false
      → (run_auction_cycle c).1.store.providers.row k ≡ some p
  unfolding run_auction_cycle
  run_auction_cycle-busy c k p keyed row busy =
      (bind-ends (Keeps k p) (query queued_jobs) auction c (ground (arith, keyed), ground arith)
        (λ js e. auction-Keeps js _ k p busy (ground (arith, keyed), ground arith))).1
