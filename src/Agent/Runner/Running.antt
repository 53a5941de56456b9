-- ===== src/Agent/Runner/Running.antt =====
-- The steps of a run, JobRunner of agent/src/job_runner.rs, with the log of the job as state.
use Prim.Native.String.{String, len, ◌++◌ as ◌+++◌}
use text.Mathlib.Text.{◌==◌ as str_eq}
use neuralmesh.Common.{
  none, Option, some, Bool, ℕ, zero, ◌+◌, ◌∷◌, ◌||◌, ◌&&◌, not, [], false, List, true, ◌==◌,
  if◌then◌else◌, length,
}
use neuralmesh.Agent.{ram_used}
use neuralmesh.Agent.Checkpoint.{Restored, CheckpointMeta, restore, not_spawned, restarted}
use neuralmesh.Agent.Polling.{JobSpec}
use neuralmesh.Agent.Runner.{
  not_downloaded, hash_mismatch, Outcome, entry_script, not_extracted, exited, bailed, code_of,
  no_entry_script, no_dmtcp, no_sandbox, VmJobResult, no_process, finished, Failure, nothing_to_run,
  JobResult, no_metadata, nonzero_exit, Machine, resolve_python, no_work_dir, no_checkpoint, Ran,
  not_started,
}
use neuralmesh.Common.Int.{pos, ℤ}
use neuralmesh.Coordinator.Store.{unwrap_or, is_null}
use neuralmesh.Database.{RowId}
use neuralmesh.Float.{Float}

abbrev pub sum_from : (R : Float) → R.F → List R.F → R.F
sum_from R acc [] = acc
sum_from R acc (x ∷ xs) = sum_from R (R.add acc x) xs

abbrev pub average : (R : Float) → List R.F → R.F
average R [] = R.lit 0 0
average R (x ∷ xs) = R.div (sum_from R (R.lit 0 0) (x ∷ xs)) (R.of_int (pos (length (x ∷ xs))))

abbrev pub is_started : Ran → Bool
is_started not_started = false
is_started (exited code output) = true

module _ {R : Float} where
  abbrev pub hash_of : Machine R → Option String → String
  hash_of m none = m.digest []
  hash_of m (some log) = m.digest (m.bytes_of log)

  -- `if exit_code != 0 { bail!(…) }`
  abbrev pub unless_zero : ℤ → JobResult R → Outcome R
  unless_zero (pos zero) result = finished result
  unless_zero code result = bailed (nonzero_exit code)

  abbrev pub result_of : JobSpec R → ℤ → String → ℕ → R.F → ℕ → JobResult R
  result_of spec code hash secs gpu ram = record {
    job_id = spec.job_id;
    exit_code = code;
    output_hash = hash;
    actual_runtime_s = secs;
    avg_gpu_util_pct = gpu;
    peak_ram_gb = ram;
  }

  -- The log that a process leaves: DMTCP appends to it, a direct run starts it anew.
  abbrev pub logged : Machine R → Option String → String → String
  logged m log output = if m.is_dmtcp_available then unwrap_or log "" +++ output else output

  -- The log after the clean-up removes the working directory.
  abbrev pub cleaned : Machine R → Option String → Option String
  cleaned m log = if m.cleans_up then none else log

  abbrev pub after_process : Machine R → JobSpec R → Option String → Ran → Outcome R × Option String
  after_process m spec log not_started =
      (bailed no_process, if m.is_dmtcp_available then log else some "")
  after_process m spec log (exited code output) =
      let written = some (logged m log output) in
      (
        unless_zero (code_of code) (
            result_of spec (code_of code) (hash_of m written) m.elapsed (average R m.gpu_samples)
              (ram_used m.gpu_stats)),
        cleaned m written,
      )

  unfoldable pub run_sandboxed :
      Machine R → JobSpec R → String → String → Option String → Outcome R × Option String
  unfolding resolve_python
  run_sandboxed m spec script python_prefix log =
      if not m.creates_sandbox
      then (bailed no_sandbox, log)
      else after_process m spec log
          (m.process (resolve_python m.exists_path m.which python_prefix) script)

  -- The machine's result, whose log the working directory never has, or else the sandbox.
  abbrev pub after_vm :
      Machine R
      → JobSpec R
      → String
      → String
      → Option String
      → Option VmJobResult
      → Outcome R × Option String
  after_vm m spec script python_prefix log none = run_sandboxed m spec script python_prefix log
  after_vm m spec script python_prefix log (some r) = (
    unless_zero r.exit_code (
        result_of spec r.exit_code (m.digest (m.bytes_of (r.stdout +++ r.stderr))) m.elapsed
          (R.lit 0 0) spec.min_ram_gb),
    cleaned m log,
  )

  abbrev pub run_script :
      Machine R → JobSpec R → String → Option String → Option String → Outcome R × Option String
  run_script m spec python_prefix log none = (bailed no_entry_script, log)
  run_script m spec python_prefix log (some script) =
      if m.is_vm_available
      then after_vm m spec script python_prefix log (m.run_in_vm script)
      else run_sandboxed m spec script python_prefix log

  -- What the bundle fails on. An empty hash is not compared.
  abbrev pub download_bundle : Machine R → String → Option (List ℕ) → Option Failure
  download_bundle m expected_hash none = some not_downloaded
  download_bundle m expected_hash (some content) =
      if len expected_hash == 0 || str_eq (m.digest content) expected_hash
      then none
      else some hash_mismatch

  abbrev pub after_download :
      Machine R → JobSpec R → String → Option String → Option Failure → Outcome R × Option String
  after_download m spec python_prefix log (some failure) = (bailed failure, log)
  after_download m spec python_prefix log none =
      if not m.extracts
      then (bailed not_extracted, log)
      else run_script m spec python_prefix log
          (entry_script m.exists_in_dir m.listing spec.script_name spec.runtime)

  abbrev pub after_restart :
      Machine R → JobSpec R → CheckpointMeta → Option String → Ran → Outcome R × Option String
  after_restart m spec meta log not_started = (bailed no_process, log)
  after_restart m spec meta log (exited code output) =
      let written = some (unwrap_or log "" +++ output) in
      (
        unless_zero (code_of code) (
            result_of spec (code_of code) (hash_of m written) (m.elapsed + meta.elapsed_secs)
              (R.lit 0 0) spec.min_ram_gb),
        written,
      )

  abbrev pub after_restore :
      Machine R → JobSpec R → CheckpointMeta → Option String → Restored → Outcome R × Option String
  after_restore m spec meta log (restarted port files) = after_restart m spec meta log m.restarts
  after_restore m spec meta log not_spawned = (bailed no_process, log)
  after_restore m spec meta log _ = (bailed no_checkpoint, log)

  abbrev pub with_meta :
      (RowId → String)
      → Machine R
      → JobSpec R
      → Option String
      → Option CheckpointMeta
      → Outcome R × Option String
  with_meta text m spec log none = (bailed no_metadata, log)
  with_meta text m spec log (some meta) =
      after_restore m spec meta log (restore text m.exists_file (is_started m.restarts) meta)

  unfoldable pub run_restore :
      (RowId → String) → Machine R → JobSpec R → Option String → Outcome R × Option String
  unfolding restore
  run_restore text m spec log =
      if not m.is_dmtcp_available
      then (bailed no_dmtcp, log)
      else with_meta text m spec log m.reads_checkpoint

  abbrev pub start_or_restore :
      (RowId → String)
      → Machine R
      → JobSpec R
      → String
      → Option String
      → Option String
      → Outcome R × Option String
  start_or_restore text m spec python_prefix log (some url) = run_restore text m spec log
  start_or_restore text m spec python_prefix log none =
      after_download m spec python_prefix log
        (download_bundle m spec.bundle_hash (m.bundle spec.bundle_url))

  unfoldable pub run :
      (RowId → String) → Machine R → JobSpec R → String → Option String → Outcome R × Option String
  unfolding run_restore run_sandboxed entry_script
  run text m spec python_prefix log =
      if len spec.bundle_url == 0 && is_null spec.checkpoint_url
      then (bailed nothing_to_run, log)
      else if not m.creates_work_dir
      then (bailed no_work_dir, log)
      else start_or_restore text m spec python_prefix log spec.checkpoint_url
