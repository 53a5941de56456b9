-- ===== src/Coordinator/Logs.antt =====
-- The log of a job, coordinator/src/api/rest.rs: get_job_logs and append_job_log. A slice that begins
-- inside a character panics: `none`.
use mathlib.Core.Option
pub mod Polling
use Prim.Native.String.{String, ◌++◌ as ◌+++◌, len}
use text.Mathlib.Text.{get?}
use neuralmesh.Common.{Bool, some, ◌+◌, ℕ, Option, ◌==◌, if◌then◌else◌, ltb}
use neuralmesh.Coordinator.Jobs.{is_terminal}
use neuralmesh.Coordinator.Rows.{Job}
use neuralmesh.Coordinator.Store.{
  on_jobs, exec, unwrap_or, ◌>>=◌, ◌>>◌, or_fail, pure, Db, not_found, query,
}
use neuralmesh.Database.{RowId, update_key}
use neuralmesh.Float.{Float}

pub record LogsReply : Type 0 where
  pub job_id : RowId
  pub output : String
  pub is_complete : Bool
  pub offset : ℕ

-- `full_log[offset..]`, where the log is longer than the offset
abbrev pub output_from : String → ℕ → Option String
output_from full_log offset =
    if ltb offset (len full_log) then get? full_log offset (len full_log) else some ""

module _ {R : Float} where
  abbrev pub logs_reply : RowId → Job R → ℕ → Option LogsReply
  logs_reply job_id job offset =
      Option.map
        (λ output. record {
          job_id = job_id;
          output = output;
          is_complete = is_terminal job.state;
          offset = offset + len output;
        })
        (output_from (unwrap_or job.output_log "") offset)

  unfoldable pub get_job_logs : RowId → Option ℕ → Db R (Option LogsReply)
  get_job_logs job_id offset = do
    row ← query (λ s. s.jobs.row job_id)
    job ← or_fail row not_found
    pure (logs_reply job_id job (unwrap_or offset 0))

  abbrev pub append_log : String → Job R → Job R
  append_log output j = record j { output_log = some (unwrap_or j.output_log "" +++ output) }

  -- The number of bytes that were appended.
  unfoldable pub append_job_log : RowId → String → Db R ℕ
  append_job_log job_id output =
      if len output == 0
      then pure 0
      else do exec (on_jobs (update_key job_id (append_log output))); pure (len output)
