-- ===== src/Coordinator/Matching/Ranking.antt =====
-- The provider that an auction picks is a candidate, and none of the candidates scores better.
use neuralmesh.Common.{
  inr, [], some, ◌≡◌, ◌∷◌, Option, false, true, List, inl, refl, Bool, arith, ◌⊎◌, Bool-cases, All,
  Member, Option-cases, none, subst, Member-take, ◌≢◌, List-cases, take,
}
use neuralmesh.Common.Int.{ℤ}
use neuralmesh.Coordinator.Matching.{
  sort_by_price, max_by, insert_by_price, is_candidate, candidates, score_of, find_best_provider,
  best_of, max_candidates, floor_of,
}
use neuralmesh.Coordinator.Rows.{Provider, Store}
use neuralmesh.Coordinator.Store.{ok, Conn}
use neuralmesh.Database.{RowId, scan_ids, scan}
use neuralmesh.Float.{IsOrdered, Float}

module _ {R : Float} where
  pub Member-scan_ids :
      (p : Provider R → Bool) (row : RowId → Option (Provider R)) (b : Provider R) (ks : List RowId)
      → Member b (scan_ids p row ks)
      → p b ≡ true × ((k : RowId) × (row k ≡ some b))
  unfolding scan_ids
  Member-scan_ids p row b [] m = elim m [ ]
  Member-scan_ids p row b (k ∷ ks) m = elim (Option-cases (row k)) [
    | inl none_there ↦ Member-scan_ids p row b ks (rw none_there at m)
    | inr (a, there) ↦ elim (Bool-cases (p a)) [
      | inl h ↦ elim (rw (there, h) at m) [
        | inl e ↦ (ground arith, (k, ground arith))
        | inr n ↦ Member-scan_ids p row b ks n
      ]
      | inr h ↦ Member-scan_ids p row b ks (rw (there, h) at m)
    ]
  ]

  pub Member-insert_by_price :
      (b p : Provider R) (ps : List (Provider R))
      → Member b (insert_by_price p ps)
      → (b ≡ p) ⊎ Member b ps
  unfolding insert_by_price
  Member-insert_by_price b p [] m = m
  Member-insert_by_price b p (q ∷ qs) m = ground (arith, Member-insert_by_price b p qs)

  pub Member-sort_by_price :
      (b : Provider R) (ps : List (Provider R)) → Member b (sort_by_price ps) → Member b ps
  unfolding sort_by_price
  Member-sort_by_price b [] m = m
  Member-sort_by_price b (p ∷ ps) m = elim (Member-insert_by_price b p (sort_by_price ps) m) [
    | inl e ↦ inl e
    | inr n ↦ inr (Member-sort_by_price b ps n)
  ]

  pub max_by-Member :
      (score : Provider R → R.F) (b : Provider R) (ps : List (Provider R))
      → Member (max_by score b ps) (b ∷ ps)
  unfolding max_by
  max_by-Member score b [] = inl refl
  max_by-Member score b (p ∷ ps) =
      ground (arith, max_by-Member score b ps, max_by-Member score p ps)

  pub max_by-not_lt :
      IsOrdered R
      → (score : Provider R → R.F) (b : Provider R) (ps : List (Provider R))
      → All (λ q. R.lt (score (max_by score b ps)) (score q) ≡ false) (b ∷ ps)
  unfolding max_by
  max_by-not_lt ord score b [] = (ord.irrefl (score b), tt)
  max_by-not_lt ord score b (p ∷ ps) = elim (Bool-cases (R.lt (score p) (score b))) [
    | inl h ↦
        let (above, rest) = max_by-not_lt ord score b ps in
        let trans = ord.not_lt_trans (score (max_by score b ps)) (score b) (score p) in
        let same : max_by score b ps ≡ max_by score b (p ∷ ps) = rw h in
        subst (λ m. All (λ q. R.lt (score m) (score q) ≡ false) (b ∷ p ∷ ps)) same
          (above, (trans above (ord.asym (score p) (score b) h), rest))
    | inr h ↦
        let (above, rest) = max_by-not_lt ord score p ps in
        let trans = ord.not_lt_trans (score (max_by score p ps)) (score p) (score b) in
        let same : max_by score p ps ≡ max_by score b (p ∷ ps) = rw h in
        subst (λ m. All (λ q. R.lt (score m) (score q) ≡ false) (b ∷ p ∷ ps)) same
          (trans above h, (above, rest))
  ]

  none-ne-some : (b : Provider R) → ¬ (Path (Option (Provider R)) none (some b))
  none-ne-some b h = ground arith

  found-eq-ok :
      (min_ram_gb : ℤ) (max_price : R.F) (c : Conn R) (k : RowId)
      → (find_best_provider min_ram_gb max_price c).0 ≡ ok (some k)
      → (b : Provider R) × (best_of (score_of max_price) (candidates min_ram_gb max_price c.store)
          ≡ some b)
        × (b.provider_id ≡ k)
  unfolding find_best_provider
  found-eq-ok min_ram_gb max_price c k h =
      elim (Option-cases (best_of (score_of max_price) (candidates min_ram_gb max_price c.store))) [
        | inl e ↦ absurd (ground arith)
        | inr (b, e) ↦ (b, e, ground arith)
      ]

  best_of-Member :
      (score : Provider R → R.F) (b : Provider R) (l : List (Provider R))
      → best_of score l ≡ some b
      → Member b l
  unfolding best_of
  best_of-Member score b [] h = absurd (none-ne-some b h)
  best_of-Member score b (p ∷ ps) h =
      let same : max_by score p ps ≡ b = ground arith in
      subst (λ m. Member m (p ∷ ps)) same (max_by-Member score p ps)

  candidates-row :
      (min_ram_gb : ℤ) (max_price : R.F) (s : Store R) (b : Provider R)
      → Member b (candidates min_ram_gb max_price s)
      → (is_candidate min_ram_gb max_price b ≡ true) × ((j : RowId) × (s.providers.row j ≡ some b))
  unfolding candidates scan
  candidates-row min_ram_gb max_price s b m =
      Member-scan_ids (is_candidate min_ram_gb max_price) s.providers.row b s.providers.ids
        (Member-sort_by_price b _ (Member-take max_candidates b _ m))

  pub found-candidate :
      (min_ram_gb : ℤ) (max_price : R.F) (c : Conn R) (k : RowId)
      → (find_best_provider min_ram_gb max_price c).0 ≡ ok (some k)
      → (b : Provider R) × (b.provider_id ≡ k)
        × ((is_candidate min_ram_gb max_price b ≡ true)
            × ((j : RowId) × (c.store.providers.row j ≡ some b)))
  found-candidate min_ram_gb max_price c k h =
      let (b, found, same) = found-eq-ok min_ram_gb max_price c k h in
      (b, same, candidates-row min_ram_gb max_price c.store b (best_of-Member _ b _ found))

  insert_by_price-cons :
      (p : Provider R) (ps : List (Provider R))
      → (q : Provider R) × (qs : List (Provider R)) × (insert_by_price p ps ≡ q ∷ qs)
  unfolding insert_by_price
  insert_by_price-cons p [] = (p, [], refl)
  insert_by_price-cons p (q ∷ qs) = elim (Bool-cases (R.lt (floor_of q) (floor_of p))) [
    | inl h ↦ (q, insert_by_price p qs, rw h)
    | inr h ↦ (p, q ∷ qs, rw h)
  ]

  sort_by_price-cons :
      (p : Provider R) (ps : List (Provider R))
      → (q : Provider R) × (qs : List (Provider R)) × (sort_by_price (p ∷ ps) ≡ q ∷ qs)
  unfolding sort_by_price
  sort_by_price-cons p ps = insert_by_price-cons p (sort_by_price ps)

  found-ne-none :
      (min_ram_gb : ℤ) (max_price : R.F) (c : Conn R) (p : Provider R) (ps : List (Provider R))
      → candidates min_ram_gb max_price c.store ≡ p ∷ ps
      → (find_best_provider min_ram_gb max_price c).0 ≢ ok none
  unfolding find_best_provider best_of
  found-ne-none min_ram_gb max_price c p ps e h = ground arith

  -- The search answers that there is no provider only where none of the providers is
  -- available with the memory and a floor price within the limit.
  pub find_best_provider-none :
      (min_ram_gb : ℤ) (max_price : R.F) (c : Conn R)
      → (find_best_provider min_ram_gb max_price c).0 ≡ ok none
      → scan (is_candidate min_ram_gb max_price) c.store.providers ≡ []
  unfolding candidates
  find_best_provider-none min_ram_gb max_price c h =
      elim (List-cases (scan (is_candidate min_ram_gb max_price) c.store.providers)) [
        | inl e ↦ e
        | inr (p, ps, e) ↦
            let (q, qs, sorted) = sort_by_price-cons p ps in
            absurd (found-ne-none min_ram_gb max_price c q (take 19 qs) (rw (e, sorted)) h)
      ]
