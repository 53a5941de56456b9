-- ===== src/Coordinator/Matching.antt =====
-- The auction of coordinator/src/matching/mod.rs: each queued job gets the provider that scores best.
-- The notice that is published for a provider, whose failure is ignored, is left out.
pub mod Ranking
pub mod Cycle
use mathlib.Core.Option
use Prim.Native.String.{String}
use neuralmesh.Common.{
  ◌+◌, Bool, List, ◌&&◌, ◌∷◌, true, some, ℕ, Option, false, none, [], if◌then◌else◌, take,
}
use neuralmesh.Common.Int.{ℤ, pos, leb_ℤ}
use neuralmesh.Coordinator.Rows.{
  available, JobState, ProviderState, Provider, assigned, queued, leased, Job, Store,
}
use neuralmesh.Coordinator.Store.{
  unwrap_or, ◌>>◌, on_jobs, Db, get_now, query, on_providers, ok, err, exec, ◌>>=◌, pure,
}
use neuralmesh.Database.{update_key, scan, RowId}
use neuralmesh.Float.{Float}

abbrev pub is_queued : JobState → Bool
is_queued queued = true
is_queued _ = false

abbrev pub is_available : ProviderState → Bool
is_available available = true
is_available _ = false

-- `x >= $1` of an integer column
abbrev pub int_at_least : Option ℤ → ℤ → Bool
int_at_least none n = false
int_at_least (some m) n = leb_ℤ n m

abbrev pub batch_size : ℕ
batch_size = 50

abbrev pub max_candidates : ℕ
max_candidates = 20

abbrev pub coalesce : Option ℕ → ℕ → ℕ
coalesce none n = n
coalesce (some m) n = m

abbrev pub with_restore : Option String → ℕ → ℕ
with_restore none n = n
with_restore (some url) n = n + 1

-- `x <= $2` of an amount
abbrev pub at_most : (R : Float) → Option R.F → R.F → Bool
at_most R none y = false
at_most R (some x) y = R.le x y

unfoldable pub simple_score : (R : Float) → R.F → R.F → R.F → R.F
simple_score R price trust max_price =
    let price_norm =
      if R.lt (R.lit 0 0) max_price
      then R.sub (R.lit 1 0) (R.min_f64 (R.div price max_price) (R.lit 1 0))
      else R.lit 5 1 in
    let trust_norm = R.div trust (R.lit 5 0) in
    R.add (R.mul (R.lit 6 1) price_norm) (R.mul (R.lit 4 1) trust_norm)

module _ {R : Float} where
  unfoldable pub is_candidate : ℤ → R.F → Provider R → Bool
  is_candidate min_ram_gb max_price p =
      is_available p.state
      && (int_at_least p.max_job_ram_gb min_ram_gb
          && at_most R p.floor_price_nmc_per_hour max_price)

  abbrev pub floor_of : Provider R → R.F
  floor_of p = unwrap_or p.floor_price_nmc_per_hour (R.lit 1 1)

  -- ORDER BY floor_price_nmc_per_hour ASC: equal prices in the order of the table
  unfoldable pub insert_by_price : Provider R → List (Provider R) → List (Provider R)
  insert_by_price p [] = p ∷ []
  insert_by_price p (q ∷ qs) =
      let rest = insert_by_price p qs in
      if R.lt (floor_of q) (floor_of p) then q ∷ rest else p ∷ (q ∷ qs)

  unfoldable pub sort_by_price : List (Provider R) → List (Provider R)
  unfolding insert_by_price
  sort_by_price [] = []
  sort_by_price (p ∷ ps) = insert_by_price p (sort_by_price ps)

  unfoldable pub candidates : ℤ → R.F → Store R → List (Provider R)
  unfolding scan is_candidate sort_by_price
  candidates min_ram_gb max_price s =
      take max_candidates (sort_by_price (scan (is_candidate min_ram_gb max_price) s.providers))

  unfoldable pub score_of : R.F → Provider R → R.F
  unfolding simple_score
  score_of max_price p = simple_score R (floor_of p) (unwrap_or p.trust_score (R.lit 3 0)) max_price

  -- `max_by`: of two that compare equal, or not at all, the later one.
  unfoldable pub max_by : (Provider R → R.F) → Provider R → List (Provider R) → Provider R
  max_by score best [] = best
  max_by score best (p ∷ ps) = max_by score (if R.lt (score p) (score best) then best else p) ps

  unfoldable pub best_of : (Provider R → R.F) → List (Provider R) → Option (Provider R)
  unfolding max_by
  best_of score [] = none
  best_of score (p ∷ ps) = some (max_by score p ps)

  unfoldable pub find_best_provider : ℤ → R.F → Db R (Option RowId)
  unfolding candidates score_of best_of
  find_best_provider min_ram_gb max_price = query (λ s.
      Option.map (λ p. p.provider_id)
        (best_of (score_of max_price) (candidates min_ram_gb max_price s)))

  unfoldable pub assign_job : RowId → RowId → R.F → Option String → Db R (Unit {0})
  assign_job job_id provider_id price_per_hour checkpoint_url = do
    now ← get_now
    exec (
        on_jobs (
          update_key job_id (λ j. record j {
            state = assigned;
            provider_id = some provider_id;
            price_per_hour = some price_per_hour;
            started_at = some (coalesce j.started_at now);
            restore_attempts = with_restore checkpoint_url j.restore_attempts;
          })))
    exec (
        on_providers
          (update_key provider_id (λ p. record p { state = leased; active_job_id = some job_id })))

  -- `match … { Ok(…) => …, Err(e) => log }`
  abbrev pub attempt : {A : Type 0} → Db R (Option A) → Db R (Option A)
  attempt m c = elim ((m c).0) [ ok a ↦ (ok a, (m c).1) | err e ↦ (ok none, (m c).1) ]

  unfoldable pub assign_found : Job R → Option RowId → Db R (Unit {0})
  unfolding assign_job
  assign_found j none = pure tt
  assign_found j (some provider_id) =
      assign_job j.job_id provider_id (unwrap_or j.max_price_per_hour (R.lit 1 1)) j.checkpoint_url

  unfoldable pub auction : List (Job R) → Db R (Unit {0})
  unfolding find_best_provider assign_found
  auction [] = pure tt
  auction (j ∷ js) = do
    found ← attempt (
        find_best_provider (unwrap_or j.min_ram_gb (pos 0))
          (unwrap_or j.max_price_per_hour R.max_value))
    assign_found j found
    auction js

  unfoldable pub queued_jobs : Store R → List (Job R)
  unfolding scan
  queued_jobs s = take batch_size (scan (λ j. is_queued j.state) s.jobs)

  unfoldable pub run_auction_cycle : Db R (Unit {0})
  unfolding queued_jobs auction
  run_auction_cycle = do jobs ← query queued_jobs; auction jobs
