-- ===== src/Crypto/Attestation/Signed.antt =====
-- A verification of an attestation that `create` has signed with Ed25519.
use Prim.Native.String.{String}
use neuralmesh.Common.{List, ℕ, ◌≡◌, ◌+◌, leb, if◌then◌else◌}
use neuralmesh.Crypto.{err, stale, IsCorrect, Schemes, ok}
use neuralmesh.Crypto.Attestation.{create, verify, signing_bytes, MacChipInfo, AttestationClaim}
use neuralmesh.Crypto.Hybrid.Created.{ensure_fresh_lem, ed_from_hex-public}
use neuralmesh.Crypto.Keys.{ed_verify-ed_sign}

-- It is accepted at every time up to five minutes after its creation, and is stale from then on.
verify-created :
    (S : Schemes) (json : AttestationClaim → List ℕ) (seed : List ℕ) (job_id : String)
    (chip : MacChipInfo) (created now : ℕ)
    → IsCorrect S
    → verify S json (create S json seed job_id chip created) now
      ≡ (if leb now (created + 300) then ok tt else err stale)
unfolding verify create
verify-created S json seed job_id chip created now laws =
    let a = create S json seed job_id chip created in
    let sig = S.ed_sign seed (signing_bytes S json a.claim) in
    rw
      (
        ed_from_hex-public S seed laws,
        laws.decode_encode sig,
        ed_verify-ed_sign S seed (signing_bytes S json a.claim) laws,
      )
      (ensure_fresh_lem now created)
