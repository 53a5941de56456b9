-- ===== src/Agent/Runner/Blame.antt =====
-- Who pays for a run that fails.
use Prim.Native.String.{String}
use neuralmesh.Coordinator.Jobs.{free_provider}
use neuralmesh.Coordinator.Lifecycle.{clamp_trust, next_rate}
use neuralmesh.Coordinator.Rows.{Provider}
use neuralmesh.Float.{Float}

module _ {R : Float} where
  -- The row of a provider after a failure that is held against it.
  abbrev pub blamed : Provider R → Provider R
  blamed p = record (free_provider p) {
    trust_score = clamp_trust R p.trust_score (R.neg (R.lit 30 2));
    success_rate = next_rate R p.success_rate p.jobs_completed (R.lit 0 0);
  }
