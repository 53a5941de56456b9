-- ===== src/Coordinator/Migration/Eviction.antt =====
-- What an eviction leaves to a watcher that runs soon after it.
use neuralmesh.Common.{
  none, refl, List, [], ◌&&◌, ◌≡◌, Option, ◌∷◌, arith, ℕ, if◌then◌else◌, ◌≤◌, ◌+◌,
}
use neuralmesh.Coordinator.Migration.{
  watch, is_leased, is_evicted, check_stale_providers, provider_timeout_secs, evict_stale_providers,
  stale_providers, silent_for,
}
use neuralmesh.Coordinator.Rows.{offline, Provider}
use neuralmesh.Coordinator.Store.{Conn}
use neuralmesh.Database.{RowId, set_row, scan, scan_ids}
use neuralmesh.Float.{Float}

module _ {R : Float} where
  nothing_stale :
      (now later : ℕ) (row : RowId → Option (Provider R)) (ks : List RowId)
      → later ≤ now + 30
      → scan_ids
          (λ p. is_leased p.state && silent_for provider_timeout_secs later p.last_seen)
          (λ k.
            set_row
              (λ p.
                if is_evicted now p then record p { state = offline; active_job_id = none } else p)
              (row k))
          ks
        ≡ []
  unfolding scan_ids
  nothing_stale now later row [] h = refl
  nothing_stale now later row (k ∷ ks) h = ground (arith, nothing_stale now later row ks h)

  -- At most 30 seconds after an eviction, with nothing between them and no fault to come, the watcher
  -- for silent providers changes nothing in the database.
  pub evict-check_stale :
      (uuid : ℕ → RowId) (c : Conn R) (later : ℕ)
      → c.faults ≡ []
      → later ≤ c.now + 30
      → (check_stale_providers uuid (record (evict_stale_providers c).1 { now = later })).1.store
        ≡ (evict_stale_providers c).1.store
  unfolding check_stale_providers evict_stale_providers stale_providers scan watch
  evict-check_stale uuid c later h soon =
      ground (arith, nothing_stale c.now later c.store.providers.row c.store.providers.ids soon)
