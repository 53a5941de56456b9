-- ===== src/Coordinator/Migration/Stranded.antt =====
-- Silent providers without an active job.
use neuralmesh.Common.{
  subst, inl, Bool, some, ℕ, List, inr, none, refl, ◌∷◌, arith, Option, ◌≡◌, ◌+◌, [], Bool-cases,
  All,
}
use neuralmesh.Coordinator.Keeping.{query-Keeps, Keeps, exec-Keeps, then-Keeps, pure-Keeps}
use neuralmesh.Coordinator.Migration.{check_stale_providers, stale_providers, migrate_active, watch}
use neuralmesh.Coordinator.Rows.{Provider, Store, Job}
use neuralmesh.Coordinator.Store.{query, bind-ends, on_providers, Conn, ok}
use neuralmesh.Database.{scan_ids, scan, Table, keep_if, RowId}
use neuralmesh.Float.{Float}

module _ {R : Float} where
  keep_if-All :
      (Q : Provider R → Type 0) (p : Provider R → Bool) (o : Option (Provider R))
      (rest : List (Provider R))
      → ((q : Provider R) → o ≡ some q → Q q)
      → All Q rest
      → All Q (keep_if p o rest)
  keep_if-All Q p none rest h all = all
  keep_if-All Q p (some q) rest h all = elim (Bool-cases (p q)) [
    | inl kept ↦ rw kept (h q refl, all)
    | inr dropped ↦ rw dropped all
  ]

  scan_ids-All :
      (Q : Provider R → Type 0) (p : Provider R → Bool) (row : RowId → Option (Provider R))
      (ks : List RowId)
      → ((k : RowId) (q : Provider R) → row k ≡ some q → Q q)
      → All Q (scan_ids p row ks)
  unfolding scan_ids
  scan_ids-All Q p row [] h = tt
  scan_ids-All Q p row (k ∷ ks) h =
      keep_if-All Q p (row k) (scan_ids p row ks) (h k) (scan_ids-All Q p row ks h)

  abbrev pub IsJobless : Provider R → Type 0
  IsJobless p = p.active_job_id ≡ none

  module _ (js : Table (Job R)) where
    abbrev HasJobs : Store R → Type 0
    HasJobs s = s.jobs ≡ js

    on_providers-HasJobs :
        (f : Table (Provider R) → Table (Provider R)) (s t : Store R)
        → HasJobs s
        → on_providers f s ≡ some t
        → HasJobs t
    on_providers-HasJobs f s t h e = ground arith

    migrate_active-HasJobs :
        (o : Option RowId) (provider_id tx_id : RowId)
        → o ≡ none
        → Keeps HasJobs (migrate_active o provider_id tx_id)
    unfolding migrate_active
    migrate_active-HasJobs none provider_id tx_id e = pure-Keeps HasJobs
    migrate_active-HasJobs (some k) provider_id tx_id e = absurd (ground arith)

    watch-HasJobs :
        (uuid : ℕ → RowId) (n : ℕ) (ps : List (Provider R))
        → All IsJobless ps
        → Keeps HasJobs (watch uuid n ps)
    unfolding watch
    watch-HasJobs uuid n [] all = pure-Keeps HasJobs
    watch-HasJobs uuid n (p ∷ ps) (jobless, all) =
        then-Keeps HasJobs (exec-Keeps HasJobs (on_providers-HasJobs _)) (
          then-Keeps HasJobs (migrate_active-HasJobs p.active_job_id p.provider_id (uuid n) jobless)
            (watch-HasJobs uuid (n + 1) ps all))

  read_stale :
      (now : ℕ) (c : Conn R) (ps : List (Provider R))
      → (query (stale_providers now) c).0 ≡ ok ps
      → stale_providers now c.store ≡ ps
  read_stale now c ps e = ground arith

  -- Whatever statements fail, the watcher changes no job where no provider has an active one.
  pub check_stale_providers-jobless :
      (uuid : ℕ → RowId) (c : Conn R)
      → ((k : RowId) (p : Provider R) → c.store.providers.row k ≡ some p → IsJobless p)
      → (check_stale_providers uuid c).1.store.jobs ≡ c.store.jobs
  unfolding check_stale_providers stale_providers scan
  check_stale_providers-jobless uuid c jobless =
      let js = c.store.jobs in
      let read = query-Keeps (HasJobs js) (stale_providers c.now) in
      bind-ends (λ d. HasJobs js d.store) (query (stale_providers c.now)) (watch uuid 0) c
        (read.run c refl)
        (λ ps e.
          (watch-HasJobs js uuid 0 ps (
              subst (λ qs. All IsJobless qs) (read_stale c.now c ps e)
                (scan_ids-All IsJobless _ c.store.providers.row c.store.providers.ids jobless))).run
            _ (read.run c refl))
