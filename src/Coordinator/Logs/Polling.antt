-- ===== src/Coordinator/Logs/Polling.antt =====
-- Reading a log piece by piece.
use Prim.Native.String.len
use Prim.Native.String.append
use Prim.Native.String.{String, ◌++◌ as ◌+++◌, len}
use text.Mathlib.Text.{get?}
use text.Mathlib.TextLemmas.{append-nil}
use text.Mathlib.TextPositions.{len-append, len_utf8-pos, get?-append_middle}
use neuralmesh.Common.{
  ◌≡◌, arith, some, refl, none, inl, inr, [], ◌+◌, ap, subst, sym, ltb, Bool-cases, ℕ, ◌==◌, ◌∙◌,
  Option, eqb_refl, eqb→eq,
}
use neuralmesh.Coordinator.Jobs.{is_terminal}
use neuralmesh.Coordinator.Logs.{output_from, get_job_logs, append_job_log, append_log}
use neuralmesh.Coordinator.Rows.{Job}
use neuralmesh.Coordinator.Store.{unwrap_or, ok, Conn}
use neuralmesh.Database.{RowId}
use neuralmesh.Float.{Float}

len_zero : (s : String) → len s ≡ 0 → s ≡ ""
len_zero String.[] e = refl
len_zero (String.◌∷◌ c s) e =
    let whole = len.cons c s in
    let width = len_utf8-pos c in absurd (ground (arith, whole, width.1))

from_end : (s t : String) → get? (s +++ t) (len s) (len (s +++ t)) ≡ some t
from_end s t = rw (len-append s t) (
    subst (λ u. get? (s +++ u) (len s) (len s + len t) ≡ some t) (append-nil t)
      (get?-append_middle s t ""))

-- What follows a text that has been read is the rest.
output_from-append : (s t : String) → output_from (s +++ t) (len s) ≡ some t
output_from-append s t = elim (Bool-cases (ltb (len s) (len (s +++ t)))) [
  | inl longer ↦ rw longer (from_end s t)
  | inr same ↦
      let total = len-append s t in
      let nothing : t ≡ "" = len_zero t (ground (arith, total)) in rw same (ap some (sym nothing))
]

output_from-zero : (s : String) → output_from s 0 ≡ some s
output_from-zero s = subst (λ u. output_from u 0 ≡ some s) (append.nil s) (output_from-append "" s)

module _ {R : Float} where
  read_log :
      (job_id : RowId) (offset : Option ℕ) (c : Conn R) (j : Job R) (output : String) (e : ℕ)
      → c.faults ≡ []
      → c.store.jobs.row job_id ≡ some j
      → output_from (unwrap_or j.output_log "") (unwrap_or offset 0) ≡ some output
      → unwrap_or offset 0 + len output ≡ e
      → (get_job_logs job_id offset c).0
        ≡ ok (
            some (record {
              job_id = job_id;
              output = output;
              is_complete = is_terminal j.state;
              offset = e;
            }))
  unfolding get_job_logs
  read_log job_id offset c j output e f row is sum = rw (f, row, is, sum) refl

  reads_appended :
      (job_id : RowId) (output : String) (c : Conn R) (j : Job R)
      → c.faults ≡ []
      → c.store.jobs.row job_id ≡ some j
      → let log = unwrap_or j.output_log "" in
        (get_job_logs job_id (some (len log)) (append_job_log job_id output c).1).0
        ≡ ok (
            some (record {
              job_id = job_id;
              output = output;
              is_complete = is_terminal j.state;
              offset = len log + len output;
            }))
  unfolding append_job_log
  reads_appended job_id output c j f row =
      let log = unwrap_or j.output_log "" in
      let rest = output_from-append log output in
      elim (Bool-cases (len output == 0)) [
        | inl nothing ↦
            let same : log +++ output ≡ log =
              ap (λ t. log +++ t) (len_zero output (eqb→eq (len output) 0 nothing))
              ∙ append-nil log in
            rw nothing (
              read_log job_id (some (len log)) c j output _ f row
                (subst (λ t. output_from t (len log) ≡ some output) same rest) refl)
        | inr more ↦
            rw (more, f)
              (read_log job_id (some (len log)) _ (append_log output j) output _ refl
                (rw (eqb_refl job_id, row) refl) rest refl)
      ]

  -- With no fault, a reader that polls the log, then again from the offset of the reply after more output
  -- has been appended, gets the log as it was and then exactly what was appended, of any length and
  -- in any characters, and the offset of the end. The job exists.
  pub get_job_logs-append_job_log :
      (job_id : RowId) (output : String) (c : Conn R) (j : Job R)
      → c.faults ≡ []
      → c.store.jobs.row job_id ≡ some j
      → let log = unwrap_or j.output_log "" in
        let after = append_job_log job_id output c in
        ((get_job_logs job_id none c).0
          ≡ ok (
              some (record {
                job_id = job_id;
                output = log;
                is_complete = is_terminal j.state;
                offset = len log;
              })))
        × ((get_job_logs job_id (some (len log)) after.1).0
            ≡ ok (
                some (record {
                  job_id = job_id;
                  output = output;
                  is_complete = is_terminal j.state;
                  offset = len log + len output;
                })))
  get_job_logs-append_job_log job_id output c j f row =
      let log = unwrap_or j.output_log "" in
      (
        read_log job_id none c j log (len log) f row (output_from-zero log) (omega arith),
        reads_appended job_id output c j f row,
      )
