-- ===== src/Coordinator/Listing/Viewing.antt =====
-- What a consumer reads of a job.
use Prim.Native.String.{String}
use text.Mathlib.Text.{◌==◌ as str_eq}
use text.Mathlib.TextEquality.{eq_iff}
use neuralmesh.Common.{
  ◌≡◌, ◌≢◌, none, ◌||◌, List, true, refl, some, [], false, Bool, ◌∷◌, if◌then◌else◌, eqb_refl, inr,
  inl, sym, Bool-cases, eqb_ne, ne_symm,
}
use neuralmesh.Common.Int.{pos}
use neuralmesh.Coordinator.Jobs.{hourly_cost, submit_job, runtime_int, new_job, SubmitJobBody}
use neuralmesh.Coordinator.Lifecycle.{
  earn, CompleteJobBody, update_trust_score, complete_job, platform_fee,
}
use neuralmesh.Coordinator.Listing.{runtime_str, job_view, get_job}
use neuralmesh.Coordinator.Rows.{Credit, complete, Job, queued}
use neuralmesh.Coordinator.Store.{ok, Conn, unwrap_or}
use neuralmesh.Database.{RowId, is_id}
use neuralmesh.Float.{Float}

-- The runtimes by name, without the shell.
abbrev runtimes : List String
runtimes = "mlx" ∷ "torch-mps" ∷ "onnx-coreml" ∷ "llama-cpp" ∷ []

abbrev one_of : String → List String → Bool
one_of s [] = false
one_of s (r ∷ rs) = str_eq s r || one_of s rs

-- What a job runs as.
abbrev pub known_or_shell : String → String
known_or_shell s = if one_of s runtimes then s else "shell"

runtime_str-runtime_int : (s : String) → runtime_str (some (runtime_int s)) ≡ known_or_shell s
runtime_str-runtime_int s = elim (Bool-cases (str_eq s "mlx")) [
  | inl mlx ↦ rw mlx (sym ((eq_iff s "mlx").0 mlx))
  | inr no_mlx ↦ elim (Bool-cases (str_eq s "torch-mps")) [
    | inl torch ↦ rw (no_mlx, torch) (sym ((eq_iff s "torch-mps").0 torch))
    | inr no_torch ↦ elim (Bool-cases (str_eq s "onnx-coreml")) [
      | inl onnx ↦ rw (no_mlx, no_torch, onnx) (sym ((eq_iff s "onnx-coreml").0 onnx))
      | inr no_onnx ↦ elim (Bool-cases (str_eq s "llama-cpp")) [
        | inl llama ↦ rw (no_mlx, no_torch, no_onnx, llama) (sym ((eq_iff s "llama-cpp").0 llama))
        | inr no_llama ↦ rw (no_mlx, no_torch, no_onnx, no_llama) refl
      ]
    ]
  ]
]

module _ {R : Float} where
  -- With enough available, no fault and no id that is taken, get_job shows a job that was just
  -- submitted as queued, without a provider and without a cost, with the runtime, the limits and the
  -- bundle that were asked for; a runtime of any other name is shown as a shell.
  pub submit_job-get_job :
      (body : SubmitJobBody R) (job_id escrow_id tx_id : RowId) (c : Conn R) (cr : Credit R)
      → c.faults ≡ []
      → c.store.credits.row body.account_id ≡ some cr
      → R.lt
          (unwrap_or cr.available_nmc (R.lit 0 0))
          (hourly_cost R body.max_price_per_hour body.max_duration_secs)
        ≡ false
      → c.store.jobs.row job_id ≡ none
      → c.store.escrows.row escrow_id ≡ none
      → c.store.transactions.row tx_id ≡ none
      → (get_job job_id (submit_job body job_id escrow_id tx_id c).1).0
        ≡ ok (record {
          job_id = job_id;
          consumer_id = body.account_id;
          provider_id = none;
          state = queued;
          runtime = known_or_shell body.runtime;
          min_ram_gb = some body.min_ram_gb;
          max_price_per_hour = some body.max_price_per_hour;
          price_per_hour = none;
          bundle_hash = body.bundle_hash;
          bundle_url = body.bundle_url;
          output_hash = none;
          actual_cost_nmc = none;
          actual_runtime_s = none;
          restore_attempts = 0;
          failure_reason = none;
          has_checkpoint = false;
          checkpoint_iter = pos 0;
          started_at = none;
          completed_at = none;
        })
  unfolding submit_job get_job new_job
  submit_job-get_job body job_id escrow_id tx_id c cr a b d e f g =
      rw (a, b, d, e, eqb_refl job_id, f, g, eqb_refl job_id, runtime_str-runtime_int body.runtime)
        refl

  -- With no fault, after the end of a job with a known price is reported, get_job shows the job as
  -- complete, and as its cost the whole price for the reported time, of which the provider has got
  -- 92%. Provider and consumer are two accounts that exist, and the id of the transaction is not
  -- taken.
  pub complete_job-get_job :
      (job_id : RowId) (body : CompleteJobBody) (tx_id : RowId) (c : Conn R) (j : Job R)
      (price : R.F) (earned spent : Credit R)
      → c.faults ≡ []
      → c.store.jobs.row job_id ≡ some j
      → j.price_per_hour ≡ some price
      → is_id j.provider_id body.provider_id ≡ true
      → c.store.credits.row body.provider_id ≡ some earned
      → c.store.credits.row j.consumer_id ≡ some spent
      → body.provider_id ≢ j.consumer_id
      → c.store.transactions.row tx_id ≡ none
      → let after = (complete_job job_id body tx_id c).1 in
        let cost = R.mul price (R.div (R.of_int body.actual_runtime_s) (R.lit 3600 0)) in
        ((get_job job_id after).0
          ≡ ok (record (job_view j) {
            state = complete;
            output_hash = some body.output_hash;
            actual_cost_nmc = some cost;
            actual_runtime_s = some body.actual_runtime_s;
            completed_at = some c.now;
          }))
        × (after.store.credits.row body.provider_id
            ≡ some (earn (R.mul cost (R.sub (R.lit 1 0) (platform_fee R))) earned))
  unfolding complete_job update_trust_score get_job
  complete_job-get_job job_id body tx_id c j price earned spent f row known mine e s apart fresh =
      let one = eqb_refl body.provider_id in
      let apart_too = eqb_ne j.consumer_id body.provider_id (ne_symm apart) in
      (
        rw (f, row, mine, e, fresh, eqb_refl job_id, row, known) refl,
        rw (f, row, mine, e, fresh, apart_too, one, e, known) refl,
      )
