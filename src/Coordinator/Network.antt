-- ===== src/Coordinator/Network.antt =====
-- What coordinator/src/api/rest.rs shows of the network: list_providers, get_provider and network_stats.
-- A negative limit, which the database refuses, is no argument here.
use Prim.Native.String.{String}
use mathlib.Core.List.{map}
use text.Mathlib.Text.{◌==◌ as str_eq}
use neuralmesh.Common.{
  Bool, ℕ, ◌&&◌, [], List, true, false, none, some, Option, ◌∷◌, if◌then◌else◌, length, take,
}
use neuralmesh.Common.Int.{◌+ℤ◌, ℤ, pos}
use neuralmesh.Coordinator.Listing.{any_or}
use neuralmesh.Coordinator.Matching.{int_at_least, is_available}
use neuralmesh.Coordinator.Migration.{is_leased}
use neuralmesh.Coordinator.Rows.{JobState, ProviderState, running, Store, complete, Provider}
use neuralmesh.Coordinator.Store.{Db, pure, query, or_fail, not_found, unwrap_or, ◌>>=◌}
use neuralmesh.Database.{scan, RowId}
use neuralmesh.Float.{Float}

-- `runtime` is read, and no handler uses it.
pub record ProviderQuery : Type 0 where
  pub runtime : Option String
  pub min_ram : Option ℤ
  pub region : Option String
  pub limit : Option ℕ

pub record ProviderView (R : Float) : Type 0 where
  pub provider_id : RowId
  pub chip_model : Option String
  pub unified_memory_gb : Option ℤ
  pub state : ProviderState
  pub floor_price_nmc_per_hour : Option R.F
  pub jobs_completed : ℕ
  pub trust_score : Option R.F

pub record NetworkStats : Type 0 where
  pub available_providers : ℕ
  pub active_providers : ℕ
  pub total_available_ram_gb : Option ℤ
  pub running_jobs : ℕ
  pub completed_jobs : ℕ

abbrev pub is_text : Option String → String → Bool
is_text none s = false
is_text (some r) s = str_eq r s

-- SUM, which is NULL where there is nothing to add.
abbrev pub sum_null : List (Option ℤ) → Option ℤ
sum_null [] = none
sum_null (none ∷ ns) = sum_null ns
sum_null (some n ∷ ns) = some (n +ℤ unwrap_or (sum_null ns) (pos 0))

-- ORDER BY floor_price_nmc_per_hour ASC, where NULLs come last
abbrev pub is_cheaper : (R : Float) → Option R.F → Option R.F → Bool
is_cheaper R none y = false
is_cheaper R (some x) none = true
is_cheaper R (some x) (some y) = R.lt x y

abbrev pub is_running : JobState → Bool
is_running running = true
is_running _ = false

abbrev pub is_complete : JobState → Bool
is_complete complete = true
is_complete _ = false

module _ {R : Float} where
  unfoldable pub insert_cheapest : Provider R → List (Provider R) → List (Provider R)
  insert_cheapest p [] = p ∷ []
  insert_cheapest p (q ∷ qs) =
      let rest = insert_cheapest p qs in
      if is_cheaper R q.floor_price_nmc_per_hour p.floor_price_nmc_per_hour
      then q ∷ rest
      else p ∷ (q ∷ qs)

  unfoldable pub cheapest_first : List (Provider R) → List (Provider R)
  unfolding insert_cheapest
  cheapest_first [] = []
  cheapest_first (p ∷ ps) = insert_cheapest p (cheapest_first ps)

  abbrev pub is_offered : ProviderQuery → Provider R → Bool
  is_offered q p =
      is_available p.state
      && (any_or (int_at_least p.max_job_ram_gb) q.min_ram && any_or (is_text p.region) q.region)

  -- The rows; the reply shows twelve of their columns.
  unfoldable pub list_providers : ProviderQuery → Db R (List (Provider R))
  unfolding scan cheapest_first
  list_providers q =
      query (λ s. take (unwrap_or q.limit 50) (cheapest_first (scan (is_offered q) s.providers)))

  abbrev pub provider_view : Provider R → ProviderView R
  provider_view p = record {
    provider_id = p.provider_id;
    chip_model = p.chip_model;
    unified_memory_gb = p.unified_memory_gb;
    state = p.state;
    floor_price_nmc_per_hour = p.floor_price_nmc_per_hour;
    jobs_completed = p.jobs_completed;
    trust_score = p.trust_score;
  }

  unfoldable pub get_provider : RowId → Db R (ProviderView R)
  get_provider provider_id = do
    row ← query (λ s. s.providers.row provider_id)
    p ← or_fail row not_found
    pure (provider_view p)

  abbrev pub count_jobs : (JobState → Bool) → Store R → ℕ
  unfolding scan
  count_jobs p s = length (scan (λ j. p j.state) s.jobs)

  abbrev pub count_providers : (ProviderState → Bool) → Store R → ℕ
  unfolding scan
  count_providers p s = length (scan (λ q. p q.state) s.providers)

  abbrev pub available_ram : Store R → Option ℤ
  unfolding scan
  available_ram s =
      sum_null (map (λ p. p.unified_memory_gb) (scan (λ p. is_available p.state) s.providers))

  abbrev pub provider_stats : Store R → ℕ × ℕ × Option ℤ
  provider_stats s = (count_providers is_available s, count_providers is_leased s, available_ram s)

  abbrev pub job_stats : Store R → ℕ × ℕ
  job_stats s = (count_jobs is_running s, count_jobs is_complete s)

  unfoldable pub network_stats : Db R NetworkStats
  network_stats = do
    stats ← query provider_stats
    jobs ← query job_stats
    pure (record {
      available_providers = stats.0;
      active_providers = stats.1;
      total_available_ram_gb = stats.2;
      running_jobs = jobs.0;
      completed_jobs = jobs.1;
    })
