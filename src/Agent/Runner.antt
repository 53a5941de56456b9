-- ===== src/Agent/Runner.antt =====
-- The run of a job on a provider, agent/src/job_runner.rs, and what agent/src/idle_monitor.rs reports of it.
-- What the machine's programs and files give is the record Machine; the one file that is carried along is
-- the log of the job, which a bundle does not bring along. Environment variables, the sandbox profile and
-- the assertion that keeps the machine awake are left out.
pub mod Running
pub mod Report
pub mod Unheard
pub mod Blame
use Prim.Native.String.{String, len, ◌++◌ as ◌+++◌}
use text.Mathlib.Text.{◌==◌ as str_eq, get?}
use neuralmesh.Common.{
  Option, [], ℕ, ◌∷◌, ◌-◌, List, false, ◌&&◌, none, Bool, some, ltb, if◌then◌else◌,
}
use neuralmesh.Agent.{GpuStats}
use neuralmesh.Agent.Checkpoint.{CheckpointMeta}
use neuralmesh.Agent.Polling.{Runtime, shell}
use neuralmesh.Common.Int.{ℤ, negsuc}
use neuralmesh.Coordinator.Store.{unwrap_or}
use neuralmesh.Database.{RowId}
use neuralmesh.Float.{Float}

-- How a process ends: it is not started, or it exits, by a signal where there is no code.
pub data Ran : Type 0 where
  not_started : Ran
  exited : (code : Option ℤ) (output : String) → Ran

pub record VmJobResult : Type 0 where
  pub exit_code : ℤ
  pub stdout : String
  pub stderr : String

pub record Machine (R : Float) : Type 0 where
  -- macOS with the helper of the virtual machine, and what the machine gives
  pub is_vm_available : Bool
  pub run_in_vm : String → Option VmJobResult
  pub is_dmtcp_available : Bool
  pub creates_work_dir : Bool
  -- the bytes that curl brings, and their SHA-256 in hex
  pub bundle : String → Option (List ℕ)
  pub digest : List ℕ → String
  pub bytes_of : String → List ℕ
  pub extracts : Bool
  -- the paths in the working directory, and the names in its root in the order of the directory
  pub exists_in_dir : String → Bool
  pub listing : List String
  pub exists_path : String → Bool
  pub which : String → Bool
  pub creates_sandbox : Bool
  -- the interpreter on the script
  pub process : String → String → Ran
  pub reads_checkpoint : Option CheckpointMeta
  pub exists_file : String → Bool
  pub restarts : Ran
  pub gpu_samples : List R.F
  pub gpu_stats : Option (GpuStats R)
  pub elapsed : ℕ
  pub cleans_up : Bool

pub data Failure : Type 0 where
  nothing_to_run no_work_dir no_dmtcp no_metadata no_checkpoint not_downloaded : Failure
  hash_mismatch not_extracted no_entry_script no_sandbox no_process : Failure
  nonzero_exit : (code : ℤ) → Failure

pub record JobResult (R : Float) : Type 0 where
  pub job_id : RowId
  pub exit_code : ℤ
  pub output_hash : String
  pub actual_runtime_s : ℕ
  pub avg_gpu_util_pct : R.F
  pub peak_ram_gb : ℕ

pub data Outcome (R : Float) : Type 0 where
  finished : JobResult R → Outcome R
  bailed : Failure → Outcome R

-- The first name that is there.
unfoldable pub first_there : (String → Bool) → List String → Option String
first_there there [] = none
first_there there (x ∷ xs) = let rest = first_there there xs in if there x then some x else rest

abbrev pub candidates : Runtime → List String
candidates shell = "run.sh" ∷ "main.sh" ∷ "start.sh" ∷ []
candidates _ = "main.py" ∷ "inference.py" ∷ "train.py" ∷ "run.py" ∷ "script.py" ∷ []

-- `path.extension() == "py"`
abbrev pub is_dot_py : Option String → Bool
is_dot_py none = false
is_dot_py (some s) = str_eq s ".py"

abbrev pub has_py_extension : String → Bool
has_py_extension name = ltb 3 (len name) && is_dot_py (get? name (len name - 3) (len name))

abbrev pub or_else : {A : Type 0} → Option A → Option A → Option A
or_else none o = o
or_else (some a) o = some a

unfoldable pub find_entry_script : (String → Bool) → List String → Runtime → Option String
unfolding first_there
find_entry_script there listing runtime =
    or_else (first_there there (candidates runtime)) (first_there has_py_extension listing)

-- The name that the coordinator gives, where it is there.
unfoldable pub entry_script :
    (String → Bool) → List String → Option String → Runtime → Option String
unfolding find_entry_script
entry_script there listing none runtime = find_entry_script there listing runtime
entry_script there listing (some name) runtime =
    if there name then some name else find_entry_script there listing runtime

-- The runtime is not read.
unfoldable pub resolve_python : (String → Bool) → (String → Bool) → String → String
unfolding first_there
resolve_python exists_path which prefix =
    unwrap_or
      (or_else
        (first_there exists_path (
          (prefix +++ "/bin/python3.12")
          ∷ (prefix +++ "/bin/python3.13")
          ∷ (prefix +++ "/bin/python3.11")
          ∷ (prefix +++ "/bin/python3")
          ∷ []))
        (first_there which ("python3.12" ∷ "python3.13" ∷ "python3.11" ∷ "python3" ∷ [])))
      "python3"

abbrev pub code_of : Option ℤ → ℤ
code_of none = negsuc 0
code_of (some n) = n
