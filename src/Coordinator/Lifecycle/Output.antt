-- ===== src/Coordinator/Lifecycle/Output.antt =====
-- The end of a job, as it is reported, leaves its output alone.
use mathlib.Core.Option
use Prim.Native.String.{String}
use mathlib.Core.Option.{some-injective}
use neuralmesh.Common.{
  Option, some, none, inr, ◌∙◌, refl, subst, inl, ◌≡◌, ◌==◌, Bool-cases, ap, false, true, arith,
  Bool, if◌then◌else◌,
}
use neuralmesh.Coordinator.Jobs.{free_provider}
use neuralmesh.Coordinator.Keeping.{
  then-Keeps, or_fail-Keeps, query-Keeps, bind-Keeps, exec-Keeps, Keeps, ignore-Keeps, pure-Keeps,
  get_now-Keeps,
}
use neuralmesh.Coordinator.Lifecycle.{
  release_all, complete_job, on_consumer, update_trust_score, fail_job, CompleteJobBody,
  FailJobBody, gross_of, platform_fee, Completed,
}
use neuralmesh.Coordinator.Rows.{
  Job, Store, Credit, failed, Transaction, OracleCall, complete, Provider, release_escrow,
}
use neuralmesh.Coordinator.Store.{
  on_jobs, on_providers, on_credits, send_oracle, pure, not_found, ◌>>◌, get_oracle, ◌>>=◌,
}
use neuralmesh.Database.{set_row, RowId, update_key, Table}
use neuralmesh.Float.{Float}

module _ {R : Float} where
  abbrev pub output_of : Option (Job R) → Option String
  output_of none = none
  output_of (some j) = j.output_log

  module _ (k : RowId) (output : Option String) where
    abbrev pub HasOutput : Store R → Type 0
    HasOutput s = output_of (s.jobs.row k) ≡ output

    same_output :
        (f : Job R → Job R) (o : Option (Job R))
        → ((j : Job R) → (f j).output_log ≡ j.output_log)
        → output_of (set_row f o) ≡ output_of o
    same_output f none h = refl
    same_output f (some j) h = h j

    on_jobs-HasOutput :
        (i : RowId) (f : Job R → Job R)
        → ((j : Job R) → (f j).output_log ≡ j.output_log)
        → (s t : Store R) → HasOutput s
        → on_jobs (update_key i f) s ≡ some t
        → HasOutput t
    on_jobs-HasOutput i f same s t h e =
        subst HasOutput (some-injective _ _ e) (elim (Bool-cases (i == k)) [
          | inl hit ↦ rw hit (same_output f (s.jobs.row k) same ∙ h)
          | inr miss ↦ rw miss h
        ])

    -- A statement on another table.
    elsewhere-HasOutput :
        (s t u : Store R) → t.jobs ≡ s.jobs → HasOutput s → some t ≡ some u → HasOutput u
    elsewhere-HasOutput s t u same h e =
        subst HasOutput (some-injective _ _ e) (ap (λ v. output_of (v.row k)) same ∙ h)

    on_providers-HasOutput :
        (f : Table (Provider R) → Table (Provider R)) (s t : Store R)
        → HasOutput s
        → on_providers f s ≡ some t
        → HasOutput t
    on_providers-HasOutput f s t h e =
        elsewhere-HasOutput s (record s { providers = f s.providers }) t refl h e

    on_credits-HasOutput :
        (f : Table (Credit R) → Table (Credit R)) (s t : Store R)
        → HasOutput s
        → on_credits f s ≡ some t
        → HasOutput t
    on_credits-HasOutput f s t h e =
        elsewhere-HasOutput s (record s { credits = f s.credits }) t refl h e

    on_consumer-HasOutput :
        (o : Option (Job R)) (f : Credit R → Credit R) (s t : Store R)
        → HasOutput s
        → on_consumer o f s ≡ some t
        → HasOutput t
    on_consumer-HasOutput none f s t h e = elsewhere-HasOutput s s t refl h e
    on_consumer-HasOutput (some j) f s t h e =
        on_credits-HasOutput (update_key j.consumer_id f) s t h e

    with_transactions-HasOutput :
        (o : Option (Table (Transaction R))) (s t : Store R)
        → HasOutput s
        → Option.map (λ ts. record s { transactions = ts }) o ≡ some t
        → HasOutput t
    with_transactions-HasOutput none s t h e = absurd (ground arith)
    with_transactions-HasOutput (some ts) s t h e =
        elsewhere-HasOutput s (record s { transactions = ts }) t refl h e

    oracle-Keeps : (call : OracleCall R) → Keeps HasOutput (send_oracle call)
    oracle-Keeps call = record { run = λ c h. h }

    settled-Keeps :
        (call : OracleCall R) (reply : Bool → Completed R)
        → Keeps HasOutput (send_oracle call >> (get_oracle >>= λ on_chain. pure (reply on_chain)))
    settled-Keeps call reply = record { run = λ c h. h }

    update_trust_score-HasOutput :
        (provider_id : RowId) (success : Bool)
        → Keeps HasOutput (update_trust_score provider_id success)
    unfolding update_trust_score
    update_trust_score-HasOutput provider_id success =
        ignore-Keeps HasOutput (exec-Keeps HasOutput (on_providers-HasOutput _))

    slash-HasOutput :
        (slash : Bool) (provider_id : RowId)
        → Keeps HasOutput (if slash then update_trust_score provider_id false else pure tt)
    slash-HasOutput true provider_id = update_trust_score-HasOutput provider_id false
    slash-HasOutput false provider_id = pure-Keeps HasOutput

    pub fail_job-HasOutput :
        (job_id : RowId) (body : FailJobBody) → Keeps HasOutput (fail_job job_id body)
    unfolding fail_job
    fail_job-HasOutput job_id body = bind-Keeps HasOutput (get_now-Keeps HasOutput) (λ now.
        then-Keeps HasOutput
          (exec-Keeps HasOutput (
            on_jobs-HasOutput job_id (λ j. record j { state = failed; completed_at = some now })
              (λ j. refl)))
          (then-Keeps HasOutput
            (exec-Keeps HasOutput (λ s. on_consumer-HasOutput (s.jobs.row job_id) release_all s))
            (then-Keeps HasOutput
              (exec-Keeps HasOutput
                (on_providers-HasOutput (update_key body.provider_id free_provider)))
              (then-Keeps HasOutput (slash-HasOutput body.slash body.provider_id)
                (then-Keeps HasOutput (oracle-Keeps _) (pure-Keeps HasOutput))))))

    pub complete_job-HasOutput :
        (job_id : RowId) (body : CompleteJobBody) (tx_id : RowId)
        → Keeps HasOutput (complete_job job_id body tx_id)
    unfolding complete_job
    complete_job-HasOutput job_id body tx_id =
        bind-Keeps HasOutput (query-Keeps HasOutput _) (λ row.
          bind-Keeps HasOutput (or_fail-Keeps HasOutput row not_found) (λ job.
            bind-Keeps HasOutput (get_now-Keeps HasOutput) (λ now.
              then-Keeps HasOutput
                (exec-Keeps HasOutput (
                  on_jobs-HasOutput job_id
                    (λ j. record j {
                      state = complete;
                      output_hash = some body.output_hash;
                      actual_runtime_s = some body.actual_runtime_s;
                      completed_at = some now;
                    })
                    (λ j. refl)))
                (then-Keeps HasOutput (exec-Keeps HasOutput (on_credits-HasOutput _)) (
                  then-Keeps HasOutput (exec-Keeps HasOutput (on_credits-HasOutput _)) (
                    then-Keeps HasOutput (exec-Keeps HasOutput (on_providers-HasOutput _)) (
                      then-Keeps HasOutput
                        (exec-Keeps HasOutput (λ s. with_transactions-HasOutput _ s))
                        (then-Keeps HasOutput (update_trust_score-HasOutput body.provider_id true) (
                          settled-Keeps (release_escrow job_id (gross_of job body.actual_runtime_s))
                            (λ on_chain. record {
                              gross_nmc = gross_of job body.actual_runtime_s;
                              provider_nmc =
                                  R.mul (gross_of job body.actual_runtime_s)
                                    (R.sub (R.lit 1 0) (platform_fee R));
                              platform_nmc =
                                  R.mul (gross_of job body.actual_runtime_s) (platform_fee R);
                              on_chain = on_chain;
                            }))))))))))
