-- ===== src/Agent/Runner/Report.antt =====
-- What the coordinator hears of a run, agent/src/idle_monitor.rs: push_final_log, report_completion and
-- report_failure, in the task that runs the job. A request that does not arrive, or fails, is not repeated.
use Prim.Native.String.{String, len}
use neuralmesh.Common.{true, Bool, Option, none, some, if◌then◌else◌, ◌==◌}
use neuralmesh.Agent.Polling.{JobSpec}
use neuralmesh.Agent.Runner.{bailed, finished, Machine, Outcome, JobResult}
use neuralmesh.Agent.Runner.Running.{run}
use neuralmesh.Common.Int.{pos}
use neuralmesh.Coordinator.Lifecycle.{fail_job, complete_job}
use neuralmesh.Coordinator.Logs.{append_job_log}
use neuralmesh.Coordinator.Store.{attempted, pure, Db, ◌>>◌}
use neuralmesh.Database.{RowId}
use neuralmesh.Float.{Float}

abbrev pub worth_pushing : Option String → Option String
worth_pushing none = none
worth_pushing (some output) = if len output == 0 then none else some output

-- Whether the log and the report arrive.
pub record Delivery : Type 0 where
  pub log : Bool
  pub report : Bool

module _ {R : Float} where
  abbrev pub if_arrives : {A : Type 0} → Bool → Db R A → Db R (Unit {0})
  if_arrives arrives request = if arrives then attempted request else pure tt

  abbrev pub push_output : Bool → RowId → Option String → Db R (Unit {0})
  push_output arrives job_id none = pure tt
  push_output arrives job_id (some output) = if_arrives arrives (append_job_log job_id output)

  unfoldable pub push_final_log : Bool → RowId → Option String → Db R (Unit {0})
  push_final_log arrives job_id log = push_output arrives job_id (worth_pushing log)

  abbrev pub report_completion : Bool → RowId → JobResult R → RowId → Db R (Unit {0})
  report_completion arrives provider_id result tx_id = if_arrives arrives (
      complete_job result.job_id
        (record {
          provider_id = provider_id;
          exit_code = result.exit_code;
          output_hash = result.output_hash;
          actual_runtime_s = pos result.actual_runtime_s;
        })
        tx_id)

  abbrev pub report_failure : Bool → RowId → RowId → Bool → Db R (Unit {0})
  report_failure arrives provider_id job_id slash =
      if_arrives arrives (fail_job job_id (record { provider_id = provider_id; slash = slash }))

  -- Every failure of a run is the provider's fault.
  abbrev pub report_outcome : Bool → RowId → RowId → RowId → Outcome R → Db R (Unit {0})
  report_outcome arrives provider_id job_id tx_id (finished result) =
      report_completion arrives provider_id result tx_id
  report_outcome arrives provider_id job_id tx_id (bailed failure) =
      report_failure arrives provider_id job_id true

  unfoldable pub run_job :
      (RowId → String)
      → Machine R
      → JobSpec R
      → String
      → Option String
      → Delivery
      → RowId
      → RowId
      → Db R (Unit {0})
  unfolding run push_final_log
  run_job text m spec python_prefix log sent provider_id tx_id = do
    let ran = run text m spec python_prefix log
    push_final_log sent.log spec.job_id ran.1
    report_outcome sent.report provider_id spec.job_id tx_id ran.0
