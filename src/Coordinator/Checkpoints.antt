-- ===== src/Coordinator/Checkpoints.antt =====
-- The checkpoints of a job, coordinator/src/api/rest.rs: save_checkpoint and get_checkpoint.
pub mod Restoring
use mathlib.Core.Option
use Prim.Native.Char.{code}
use Prim.Native.String.{String, len, ◌++◌ as ◌+++◌}
use neuralmesh.Common.{none, List, some, ◌&&◌, ◌∷◌, [], ℕ, Option, ◌==◌, if◌then◌else◌}
use neuralmesh.Common.Int.{ltb_ℤ, ℤ}
use neuralmesh.Coordinator.Rows.{Job, Checkpoint, Store}
use neuralmesh.Coordinator.Store.{
  on_jobs, exec, get_now, ◌>>=◌, ◌>>◌, or_fail, pure, Db, not_found, is_null, query,
}
use neuralmesh.Database.{RowId, update_key, insert_row, scan}
use neuralmesh.Float.{Float}

pub record CheckpointBody : Type 0 where
  pub provider_id : RowId
  pub iteration : ℤ
  pub elapsed_secs : ℤ
  pub checkpoint_dir : String
  pub dmtcp_files : List String

pub record Saved : Type 0 where
  pub checkpoint_id : RowId
  pub checkpoint_url : String

pub record CheckpointReply : Type 0 where
  pub job_id : RowId
  pub iteration : ℤ
  pub checkpoint_dir : String
  pub dmtcp_files : List String
  pub elapsed_secs : ℤ
  pub coord_port : ℕ

-- `trim_end_matches('/')`
unfoldable pub trim_end_slashes : String → String
trim_end_slashes String.[] = ""
trim_end_slashes (String.◌∷◌ c s) =
    let rest = trim_end_slashes s in if len rest == 0 && code c == 47 then "" else String.◌∷◌ c rest

abbrev pub checkpoint_url_of : String → String
checkpoint_url_of dir = "file://" +++ trim_end_slashes dir

-- ORDER BY iteration DESC LIMIT 1
unfoldable pub latest : Option Checkpoint → List Checkpoint → Option Checkpoint
latest best [] = best
latest none (k ∷ ks) = latest (some k) ks
latest (some b) (k ∷ ks) = latest (some (if ltb_ℤ b.iteration k.iteration then k else b)) ks

abbrev pub reply_of : RowId → Checkpoint → CheckpointReply
reply_of job_id k = record {
  job_id = job_id;
  iteration = k.iteration;
  checkpoint_dir = k.checkpoint_dir;
  dmtcp_files = k.dmtcp_files;
  elapsed_secs = k.elapsed_secs;
  coord_port = 0;
}

module _ {R : Float} where
  -- INSERT INTO job_checkpoints: the job must exist.
  abbrev pub insert_checkpoint : Checkpoint → Store R → Option (Store R)
  insert_checkpoint k s =
      if is_null (s.jobs.row k.job_id)
      then none
      else Option.map (λ ks. record s { checkpoints = ks })
          (insert_row k.checkpoint_id k s.checkpoints)

  abbrev pub mark_checkpoint : ℕ → CheckpointBody → Job R → Job R
  mark_checkpoint now body j = record j {
    checkpoint_url = some (checkpoint_url_of body.checkpoint_dir);
    checkpoint_iter = body.iteration;
    last_heartbeat = some now;
  }

  unfoldable pub save_checkpoint : RowId → CheckpointBody → RowId → Db R Saved
  save_checkpoint job_id body ckpt_id = do
    exec (
        insert_checkpoint (record {
          checkpoint_id = ckpt_id;
          job_id = job_id;
          provider_id = body.provider_id;
          iteration = body.iteration;
          checkpoint_dir = body.checkpoint_dir;
          dmtcp_files = body.dmtcp_files;
          elapsed_secs = body.elapsed_secs;
        }))
    now ← get_now
    exec (on_jobs (update_key job_id (mark_checkpoint now body)))
    pure
        (record { checkpoint_id = ckpt_id; checkpoint_url = checkpoint_url_of body.checkpoint_dir })

  unfoldable pub get_checkpoint : RowId → Db R CheckpointReply
  unfolding latest scan
  get_checkpoint job_id = do
    row ← query (λ s. latest none (scan (λ k. k.job_id == job_id) s.checkpoints))
    k ← or_fail row not_found
    pure (reply_of job_id k)
