-- ===== src/Ledger/Oracle.antt =====
-- The settlement endpoints of ledger/src/main.rs. What submits the transaction is a parameter: the hash,
-- nothing where the oracle is disabled, or an error.
use Prim.Native.String.{String, len}
use text.Mathlib.Text.{◌==◌ as str_eq}
use neuralmesh.Common.{none, Bool, some, false, ◌&&◌, not, Option, ◌==◌, if◌then◌else◌}
use neuralmesh.Coordinator.Store.{ok, Reply, internal_error, bad_request, unauthorized, err}
use neuralmesh.Database.{RowId}
use neuralmesh.Float.{Float}

pub record OnChainReleaseBody (R : Float) : Type 0 where
  pub job_id : RowId
  pub actual_cost_nmc : R.F
  pub secret : String

pub record OnChainCancelBody : Type 0 where
  pub job_id : RowId
  pub secret : String

pub data Submission : Type 0 where
  submitted : String → Submission
  disabled rejected : Submission

-- The hash of the reply, `null` where the oracle is disabled.
abbrev pub answer : Submission → Reply (Option String)
answer (submitted tx_hash) = ok (some tx_hash)
answer disabled = ok none
answer rejected = err internal_error

-- `expected` is the environment's INTERNAL_SECRET.
unfoldable pub verify_secret : Option String → String → Bool
verify_secret none provided = false
verify_secret (some expected) provided = not (len expected == 0) && str_eq provided expected

unfoldable pub on_chain_release :
    {R : Float}
    → Option String
    → (RowId → R.F → Submission)
    → OnChainReleaseBody R
    → Reply (Option String)
unfolding verify_secret
on_chain_release {R = R} expected release body =
    if not (verify_secret expected body.secret)
    then err unauthorized
    else if R.lt body.actual_cost_nmc (R.lit 0 0)
    then err bad_request
    else answer (release body.job_id body.actual_cost_nmc)

unfoldable pub on_chain_cancel :
    Option String → (RowId → Submission) → OnChainCancelBody → Reply (Option String)
unfolding verify_secret
on_chain_cancel expected cancel body =
    if not (verify_secret expected body.secret)
    then err unauthorized
    else answer (cancel body.job_id)
