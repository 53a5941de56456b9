-- ===== src/Coordinator/Checkpoints/Restoring.antt =====
-- A checkpoint is what lets a job survive its provider.
use neuralmesh.Common.{some, refl, none, [], true, ◌<◌, ◌∙◌, ◌≡◌, eqb_refl}
use neuralmesh.Coordinator.Checkpoints.{
  checkpoint_url_of, mark_checkpoint, CheckpointBody, save_checkpoint,
}
use neuralmesh.Coordinator.Migration.{migrate_or_fail_job, in_progress}
use neuralmesh.Coordinator.Migration.Outcome.{migrate-requeues}
use neuralmesh.Coordinator.Rows.{Job, queued}
use neuralmesh.Coordinator.Store.{◌>>◌, ok, Conn}
use neuralmesh.Database.{RowId}
use neuralmesh.Float.{Float}

module _ {R : Float} where
  save_checkpoint-eq-ok :
      (job_id : RowId) (body : CheckpointBody) (ckpt_id : RowId) (c : Conn R) (j : Job R)
      → c.faults ≡ []
      → c.store.jobs.row job_id ≡ some j
      → c.store.checkpoints.row ckpt_id ≡ none
      → let after = save_checkpoint job_id body ckpt_id c in
        (after.0
          ≡ ok (record {
            checkpoint_id = ckpt_id;
            checkpoint_url = checkpoint_url_of body.checkpoint_dir;
          }))
        × (after.1.faults ≡ [])
        × (after.1.store.jobs.row job_id ≡ some (mark_checkpoint c.now body j))
        × (after.1.store.credits ≡ c.store.credits)
        × (after.1.store.escrows ≡ c.store.escrows)
  unfolding save_checkpoint
  save_checkpoint-eq-ok job_id body ckpt_id c j f row fresh = (
    rw (f, row, fresh) refl,
    rw (f, row, fresh) refl,
    rw (f, row, fresh, eqb_refl job_id, row) refl,
    rw (f, row, fresh) refl,
    rw (f, row, fresh) refl,
  )

  -- With no fault, a job in progress that has been restored fewer than three times is queued again,
  -- without a provider, when `migrate_or_fail_job` runs for it after a checkpoint was saved; it has the checkpoint's address and
  -- iteration, and no credit or escrow changes. The id of the checkpoint is not taken.
  pub save_checkpoint-migrate :
      (job_id : RowId) (body : CheckpointBody) (ckpt_id provider_id tx_id : RowId) (c : Conn R)
      (j : Job R)
      → c.faults ≡ []
      → c.store.jobs.row job_id ≡ some j
      → in_progress j.state ≡ true
      → j.restore_attempts < 3
      → c.store.checkpoints.row ckpt_id ≡ none
      → let url = checkpoint_url_of body.checkpoint_dir in
        let after =
          (save_checkpoint job_id body ckpt_id >> migrate_or_fail_job job_id provider_id tx_id) c in
        ((save_checkpoint job_id body ckpt_id c).0
          ≡ ok (record { checkpoint_id = ckpt_id; checkpoint_url = url }))
        × (after.1.store.jobs.row job_id
            ≡ some (record j {
              state = queued;
              provider_id = none;
              failure_reason = some "provider_disconnect_checkpoint_restore";
              checkpoint_url = some url;
              checkpoint_iter = body.iteration;
              last_heartbeat = some c.now;
            }))
        × (after.1.store.credits ≡ c.store.credits)
        × (after.1.store.escrows ≡ c.store.escrows)
  save_checkpoint-migrate job_id body ckpt_id provider_id tx_id c j f row going few fresh =
      let saved = save_checkpoint-eq-ok job_id body ckpt_id c j f row fresh in
      let moved =
        migrate-requeues job_id provider_id tx_id (save_checkpoint job_id body ckpt_id c).1
          (mark_checkpoint c.now body j) saved.1 saved.2 going refl few in
      (saved.0, rw saved.0 moved.0, rw saved.0 (moved.1 ∙ saved.3), rw saved.0 (moved.2 ∙ saved.4))
