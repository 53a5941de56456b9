-- ===== src/Agent/Checkpoint/Port.antt =====
-- The port of a restored session.
use Prim.Native.String.{String}
use neuralmesh.Common.{
  some, ℕ, Bool, ◌≡◌, ◌<◌, List, arith, ◌≤◌, false, ◌∷◌, ◌∙◌, [], ap, Option, true, none, refl,
}
use neuralmesh.Agent.Checkpoint.{
  derive_port, CheckpointMeta, launch, fetch_checkpoint_meta, restore, restarted, restart,
  meta_from, restart_from, existing, effective_port,
}
use neuralmesh.Coordinator.Checkpoints.{CheckpointReply, get_checkpoint}
use neuralmesh.Coordinator.Store.{ok, Conn}
use neuralmesh.Database.{RowId}
use neuralmesh.Float.{Float}

derive_port_bounds : (job_id : String) → (7780 ≤ derive_port job_id) × (derive_port job_id < 7980)
unfolding derive_port
derive_port_bounds job_id = (omega arith, omega arith)

-- What a reply of the coordinator always has.
abbrev IsPortless : RowId → CheckpointReply → Type 0
IsPortless job_id r = (r.job_id ≡ job_id) × (r.coord_port ≡ 0)

restart_port :
    (spawns : Bool) (used port : ℕ) (found files : List String)
    → restart spawns used found ≡ restarted port files
    → port ≡ used
restart_port spawns used port [] files e = absurd (ground arith)
restart_port true used port (f ∷ fs) files e = ground arith
restart_port false used port (f ∷ fs) files e = absurd (ground arith)

restart_from_port :
    (exists : String → Bool) (spawns : Bool) (dir : String) (used port : ℕ)
    (recorded files : List String)
    → restart_from exists spawns dir used recorded ≡ restarted port files
    → port ≡ used
restart_from_port exists spawns dir used port [] files e = absurd (ground arith)
restart_from_port exists spawns dir used port (f ∷ fs) files e =
    restart_port spawns used port (existing exists dir (f ∷ fs)) files e

meta_from-eq-some :
    (r : CheckpointReply) (iteration elapsed : Option ℕ) (meta : CheckpointMeta)
    → meta_from r iteration elapsed ≡ some meta
    → (meta.job_id ≡ r.job_id) × (meta.coord_port ≡ r.coord_port)
meta_from-eq-some r none elapsed meta e = absurd (ground arith)
meta_from-eq-some r (some i) none meta e = absurd (ground arith)
meta_from-eq-some r (some i) (some t) meta e = ground arith

portless-effective :
    (text : RowId → String) (meta : CheckpointMeta)
    → meta.coord_port ≡ 0
    → effective_port text meta ≡ derive_port (text meta.job_id)
portless-effective text meta e = rw e refl

restored_port :
    (text : RowId → String) (exists : String → Bool) (spawns : Bool) (r : CheckpointReply)
    (meta : CheckpointMeta) (job_id : RowId) (port : ℕ) (files : List String)
    → IsPortless job_id r
    → fetch_checkpoint_meta (ok r) ≡ some meta
    → restore text exists spawns meta ≡ restarted port files
    → port ≡ derive_port (text job_id)
unfolding fetch_checkpoint_meta restore
restored_port text exists spawns r meta job_id port files (of_job, portless) fetched started =
    let (same_job, same_port) = meta_from-eq-some r _ _ meta fetched in
    restart_from_port exists spawns meta.checkpoint_dir (effective_port text meta) port
      meta.dmtcp_files files started
    ∙ portless-effective text meta (same_port ∙ portless)
    ∙ ap (λ k. derive_port (text k)) (same_job ∙ of_job)

module _ {R : Float} where
  get_checkpoint-IsPortless :
      (job_id : RowId) (c : Conn R) (r : CheckpointReply)
      → (get_checkpoint job_id c).0 ≡ ok r
      → IsPortless job_id r
  unfolding get_checkpoint
  get_checkpoint-IsPortless job_id c r e = ground arith

  -- A job that is restarted from the checkpoint that the coordinator gives out, on whatever provider,
  -- gets the port of its launch again, one of 7780 to 7979.
  pub get_checkpoint-restore :
      (text : RowId → String) (exists : String → Bool) (spawns : Bool) (job_id : RowId) (now : ℕ)
      (c : Conn R) (r : CheckpointReply) (meta : CheckpointMeta) (port : ℕ) (files : List String)
      → (get_checkpoint job_id c).0 ≡ ok r
      → fetch_checkpoint_meta (ok r) ≡ some meta
      → restore text exists spawns meta ≡ restarted port files
      → (port ≡ (launch text job_id now).coord_port) × (7780 ≤ port) × (port < 7980)
  get_checkpoint-restore text exists spawns job_id now c r meta port files given fetched started =
      let same =
        restored_port text exists spawns r meta job_id port files
          (get_checkpoint-IsPortless job_id c r given) fetched started in
      let bounds = derive_port_bounds (text job_id) in (same, rw same bounds.0, rw same bounds.1)
