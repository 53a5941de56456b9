-- ===== src/Ledger/Settlement.antt =====
-- The endpoint of ledger/src/main.rs that releases an escrow, with the oracle of arbitrum.rs behind it.
use Prim.Native.String.{String}
use neuralmesh.Common.{Option, some, none}
use neuralmesh.Arbitrum.Oracle.{Result, done, failed, Node, Conversion, ArbitrumOracle, Library}
use neuralmesh.Arbitrum.Oracle.Sending.{release_escrow}
use neuralmesh.Coordinator.Store.{ok, err, Reply}
use neuralmesh.Database.{RowId}
use neuralmesh.Float.{Float}
use neuralmesh.Ledger.Oracle.{
  rejected, submitted, disabled, Submission, OnChainReleaseBody, on_chain_release,
}

abbrev pub submission : Result (Option String) → Submission
submission (done (some tx_hash)) = submitted tx_hash
submission (done none) = disabled
submission (failed e) = rejected

-- The endpoint with the oracle, on a node.
unfoldable pub release_on_chain :
    {R : Float}
    → Library
    → Conversion R
    → ArbitrumOracle
    → (RowId → String)
    → Option String
    → Node
    → OnChainReleaseBody R
    → Reply (Option String)
unfolding on_chain_release
release_on_chain L C o text expected n body =
    on_chain_release expected
      (λ job_id cost. submission (release_escrow L C o (text job_id) cost n).0) body

-- What an answer says of the oracle.
abbrev as_result : Result (Option String) → Reply (Option String) → Result (Option String)
as_result d (ok x) = done x
as_result d (err e) = d
