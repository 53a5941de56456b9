-- ===== src/Agent/Runner/Unheard.antt =====
-- The log of a job, after the clean-up.
use Prim.Native.String.{String, len}
use neuralmesh.Common.{
  refl, inl, inr, ◌&&◌, some, true, none, ◌≡◌, Option, Bool-cases, ◌==◌, false, arith, not, Bool,
  if◌then◌else◌,
}
use neuralmesh.Agent.Polling.{JobSpec}
use neuralmesh.Agent.Runner.{
  Machine, Ran, exited, not_started, VmJobResult, Failure, Outcome, bailed, finished,
}
use neuralmesh.Agent.Runner.Report.{
  worth_pushing, push_final_log, run_job, report_outcome, if_arrives, Delivery,
}
use neuralmesh.Agent.Runner.Running.{
  run, after_process, run_script, cleaned, after_download, run_sandboxed, after_vm,
  start_or_restore,
}
use neuralmesh.Coordinator.Keeping.{attempted-Keeps, Keeps, pure-Keeps}
use neuralmesh.Coordinator.Lifecycle.Output.{
  output_of, complete_job-HasOutput, fail_job-HasOutput, HasOutput,
}
use neuralmesh.Coordinator.Store.{is_null, Db, pure, Conn}
use neuralmesh.Database.{RowId}
use neuralmesh.Float.{Float}

-- There is no output in the file, or no file.
abbrev IsSilent : Option String → Type 0
IsSilent log = worth_pushing log ≡ none

module _ {R : Float} where
  either-IsSilent :
      (b : Bool) (x y : Outcome R × Option String)
      → IsSilent x.1
      → IsSilent y.1
      → IsSilent (if b then x else y).1
  either-IsSilent true x y h k = h
  either-IsSilent false x y h k = k

  module _ (m : Machine R) (spec : JobSpec R) (python_prefix : String)
      (swept : m.cleans_up ≡ true) where
    cleaned-IsSilent : (log : Option String) → IsSilent (cleaned m log)
    cleaned-IsSilent log = rw swept refl

    after_process-IsSilent : (ran : Ran) → IsSilent (after_process m spec none ran).1
    after_process-IsSilent not_started = elim (Bool-cases m.is_dmtcp_available) [
      | inl dmtcp ↦ rw dmtcp refl
      | inr direct ↦ rw direct refl
    ]
    after_process-IsSilent (exited code output) = cleaned-IsSilent _

    run_sandboxed-IsSilent :
        (script : String) → IsSilent (run_sandboxed m spec script python_prefix none).1
    unfolding run_sandboxed
    run_sandboxed-IsSilent script =
        either-IsSilent (not m.creates_sandbox) _ _ refl (after_process-IsSilent _)

    after_vm-IsSilent :
        (script : String) (o : Option VmJobResult)
        → IsSilent (after_vm m spec script python_prefix none o).1
    after_vm-IsSilent script none = run_sandboxed-IsSilent script
    after_vm-IsSilent script (some r) = cleaned-IsSilent none

    run_script-IsSilent : (o : Option String) → IsSilent (run_script m spec python_prefix none o).1
    run_script-IsSilent none = refl
    run_script-IsSilent (some script) =
        either-IsSilent m.is_vm_available _ _ (after_vm-IsSilent script (m.run_in_vm script))
          (run_sandboxed-IsSilent script)

    after_download-IsSilent :
        (o : Option Failure) → IsSilent (after_download m spec python_prefix none o).1
    after_download-IsSilent (some failure) = refl
    after_download-IsSilent none = either-IsSilent (not m.extracts) _ _ refl (run_script-IsSilent _)

    start-IsSilent :
        (text : RowId → String) (o : Option String)
        → o ≡ none
        → IsSilent (start_or_restore text m spec python_prefix none o).1
    start-IsSilent text none e = after_download-IsSilent _
    start-IsSilent text (some url) e = absurd (ground arith)

    -- A run that starts afresh leaves no output to push.
    pub run-IsSilent :
        (text : RowId → String)
        → spec.checkpoint_url ≡ none
        → IsSilent (run text m spec python_prefix none).1
    unfolding run
    run-IsSilent text fresh =
        either-IsSilent (len spec.bundle_url == 0 && is_null spec.checkpoint_url) _ _ refl (
          either-IsSilent (not m.creates_work_dir) _ _ refl
            (start-IsSilent text spec.checkpoint_url fresh))

module _ {R : Float} where
  push_final_log-silent :
      (arrives : Bool) (job_id : RowId) (log : Option String)
      → IsSilent log
      → push_final_log {R = R} arrives job_id log ≡ pure tt
  unfolding push_final_log
  push_final_log-silent arrives job_id log silent = rw silent refl

  module _ (k : RowId) (output : Option String) where
    if_arrives-HasOutput :
        {A : Type 0} (arrives : Bool) {request : Db R A}
        → Keeps (HasOutput k output) request
        → Keeps (HasOutput k output) (if_arrives arrives request)
    if_arrives-HasOutput true kept = attempted-Keeps (HasOutput k output) kept
    if_arrives-HasOutput false kept = pure-Keeps (HasOutput k output)

    report_outcome-HasOutput :
        (arrives : Bool) (provider_id job_id tx_id : RowId) (o : Outcome R)
        → Keeps (HasOutput k output) (report_outcome arrives provider_id job_id tx_id o)
    report_outcome-HasOutput arrives provider_id job_id tx_id (finished r) =
        if_arrives-HasOutput arrives (complete_job-HasOutput k output _ _ _)
    report_outcome-HasOutput arrives provider_id job_id tx_id (bailed x) =
        if_arrives-HasOutput arrives (fail_job-HasOutput k output _ _)

  -- Of a job that starts afresh and whose working directory is removed, no output reaches the
  -- coordinator, however the job ends, on whatever machine, whatever requests arrive and whatever
  -- statements fail: the output of every job stays as it is.
  pub run_job-output_of :
      (text : RowId → String) (m : Machine R) (spec : JobSpec R) (python_prefix : String)
      (sent : Delivery) (provider_id tx_id : RowId) (c : Conn R) (k : RowId)
      → spec.checkpoint_url ≡ none
      → m.cleans_up ≡ true
      → output_of
          ((run_job text m spec python_prefix none sent provider_id tx_id c).1.store.jobs.row k)
        ≡ output_of (c.store.jobs.row k)
  unfolding run_job
  run_job-output_of text m spec python_prefix sent provider_id tx_id c k fresh swept =
      let silent = run-IsSilent m spec python_prefix swept text fresh in
      rw (push_final_log-silent sent.log spec.job_id _ silent) (
        (report_outcome-HasOutput k (output_of (c.store.jobs.row k)) sent.report provider_id
            spec.job_id tx_id _).run
          c refl)
