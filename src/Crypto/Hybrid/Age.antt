-- ===== src/Crypto/Hybrid/Age.antt =====
-- How long an attestation that is accepted once stays accepted.
use neuralmesh.Common.{List, ℕ, ◌≡◌, ◌+◌, if◌then◌else◌, leb}
use neuralmesh.Crypto.{Schemes, ok, err, stale}
use neuralmesh.Crypto.Hybrid.{verify, HybridClaim, HybridAttestation}
use neuralmesh.Crypto.Hybrid.Accepted.{verify-IsAccepted}
use neuralmesh.Crypto.Hybrid.Created.{ensure_fresh_lem}
use neuralmesh.Database.{first}

-- An attestation that is accepted at one time is accepted at every time up to five minutes after the
-- timestamp of its claim, and is stale from then on: the time before the timestamp has no lower bound,
-- so a claim with a timestamp in the future is accepted until five minutes after that time.
pub verify-age :
    (S : Schemes) (json : HybridClaim → List ℕ) (a : HybridAttestation) (first now : ℕ)
    → verify S json a first ≡ ok tt
    → verify S json a now ≡ (if leb now (a.claim.timestamp + 300) then ok tt else err stale)
unfolding verify
verify-age S json a first now h =
    let f = verify-IsAccepted S json a first h in
    rw
      (
        f.ed_key_read, f.ed_sig_read, f.ed_verified, f.pq_key_read, f.dil3_sig_read, f.pq_verified,
        f.stored_read, f.commits,
      )
      (ensure_fresh_lem now a.claim.timestamp)
