-- ===== src/Agent/Checkpoint.antt =====
-- The checkpoints that the agent takes of a job, agent/src/checkpoint.rs: the port of a session, the ticker
-- that takes one every five minutes and reports it, and the restart of a job from one. DMTCP itself, the
-- disk and the network are the arguments: what each of their calls gives. `text` is the text of an id.
pub mod Shadow
pub mod Port
use Prim.Native.String.{String, ◌++◌ as ◌+++◌}
use neuralmesh.Common.{
  Bool, ◌∷◌, some, ◌+◌, none, List, ℕ, ◌%◌, Option, [], ◌&&◌, ltb, if◌then◌else◌,
}
use neuralmesh.Common.Int.{ℤ, pos, negsuc}
use neuralmesh.Common.Text.{bytes}
use neuralmesh.Coordinator.Checkpoints.{CheckpointReply, CheckpointBody}
use neuralmesh.Coordinator.Store.{err, Reply, ok}
use neuralmesh.Database.{RowId}

abbrev pub checkpoint_interval_secs : ℕ
checkpoint_interval_secs = 300

pub record CheckpointMeta : Type 0 where
  pub job_id : RowId
  pub iteration : ℕ
  pub checkpoint_dir : String
  pub elapsed_secs : ℕ
  pub coord_port : ℕ
  pub dmtcp_files : List String

-- The sum of the bytes, as a u16.
unfoldable pub hash_from : ℕ → List ℕ → ℕ
hash_from acc [] = acc
hash_from acc (b ∷ bs) = hash_from ((acc + b) % 65536) bs

unfoldable pub derive_port : String → ℕ
unfolding hash_from
derive_port job_id = 7780 + hash_from 0 (bytes job_id) % 200

pub record DmtcpSession : Type 0 where
  pub job_id : RowId
  pub checkpoint_dir : String
  pub coord_port : ℕ
  pub iteration : ℕ
  pub started_at : ℕ

abbrev pub checkpoint_dir_of : String → String
checkpoint_dir_of job_id = "/var/neuralmesh/checkpoints/" +++ job_id

-- The session of a launch that succeeds.
abbrev pub launch : (RowId → String) → RowId → ℕ → DmtcpSession
launch text job_id now = record {
  job_id = job_id;
  checkpoint_dir = checkpoint_dir_of (text job_id);
  coord_port = derive_port (text job_id);
  iteration = 0;
  started_at = now;
}

-- A round of the ticker: whether the command succeeds, the files in the directory, the seconds since the
-- ticker started, and whether the metadata is saved and the report arrives.
pub record Tick : Type 0 where
  pub succeeds : Bool
  pub files : List String
  pub elapsed : ℕ
  pub is_saved : Bool
  pub arrives : Bool

pub record Ticker : Type 0 where
  pub job_id : RowId
  pub provider_id : RowId
  pub coord_port : ℕ
  pub checkpoint_dir : String

abbrev pub meta_of : Ticker → ℕ → Tick → CheckpointMeta
meta_of s iteration t = record {
  job_id = s.job_id;
  iteration = iteration;
  checkpoint_dir = s.checkpoint_dir;
  elapsed_secs = t.elapsed;
  coord_port = s.coord_port;
  dmtcp_files = t.files;
}

abbrev pub report_checkpoint : RowId → CheckpointMeta → CheckpointBody
report_checkpoint provider_id meta = record {
  provider_id = provider_id;
  iteration = pos meta.iteration;
  elapsed_secs = pos meta.elapsed_secs;
  checkpoint_dir = meta.checkpoint_dir;
  dmtcp_files = meta.dmtcp_files;
}

-- The reports that reach the coordinator. The iteration is a variable of the task, which starts at 0.
unfoldable pub ticker_from : Ticker → ℕ → List Tick → List CheckpointBody
ticker_from s iteration [] = []
ticker_from s iteration (t ∷ ts) =
    let rest = ticker_from s (iteration + 1) ts in
    if t.succeeds && (t.is_saved && t.arrives)
    then report_checkpoint s.provider_id (meta_of s (iteration + 1) t) ∷ rest
    else rest

unfoldable pub checkpoint_ticker : Ticker → List Tick → List CheckpointBody
unfolding ticker_from
checkpoint_ticker s ts = ticker_from s 0 ts

-- The reply as the agent parses it: a negative number is none of its unsigned fields.
abbrev pub unsigned : ℤ → Option ℕ
unsigned (pos n) = some n
unsigned (negsuc n) = none

abbrev pub meta_from : CheckpointReply → Option ℕ → Option ℕ → Option CheckpointMeta
meta_from r (some iteration) (some elapsed) = some (record {
  job_id = r.job_id;
  iteration = iteration;
  checkpoint_dir = r.checkpoint_dir;
  elapsed_secs = elapsed;
  coord_port = r.coord_port;
  dmtcp_files = r.dmtcp_files;
})
meta_from r _ _ = none

unfoldable pub fetch_checkpoint_meta : Reply CheckpointReply → Option CheckpointMeta
fetch_checkpoint_meta (err e) = none
fetch_checkpoint_meta (ok r) = meta_from r (unsigned r.iteration) (unsigned r.elapsed_secs)

pub data Restored : Type 0 where
  no_files files_missing not_spawned : Restored
  restarted : (coord_port : ℕ) (files : List String) → Restored

abbrev pub existing : (String → Bool) → String → List String → List String
existing exists dir [] = []
existing exists dir (f ∷ fs) =
    let path = dir +++ ("/" +++ f) in
    let rest = existing exists dir fs in if exists path then path ∷ rest else rest

abbrev pub restart : Bool → ℕ → List String → Restored
restart spawns port [] = files_missing
restart spawns port (f ∷ fs) = if spawns then restarted port (f ∷ fs) else not_spawned

-- The port that is used where the metadata has 0.
abbrev pub effective_port : (RowId → String) → CheckpointMeta → ℕ
effective_port text meta =
    if ltb 0 meta.coord_port then meta.coord_port else derive_port (text meta.job_id)

abbrev pub restart_from : (String → Bool) → Bool → String → ℕ → List String → Restored
restart_from exists spawns dir port [] = no_files
restart_from exists spawns dir port (f ∷ fs) = restart spawns port (existing exists dir (f ∷ fs))

unfoldable pub restore : (RowId → String) → (String → Bool) → Bool → CheckpointMeta → Restored
restore text exists spawns meta =
    restart_from exists spawns meta.checkpoint_dir (effective_port text meta) meta.dmtcp_files
