-- ===== src/Crypto/Hybrid/Created.antt =====
-- A verification of an attestation that `create` has signed.
use Prim.Native.String.{String}
use neuralmesh.Common.{List, ℕ, ◌≡◌, refl, ◌+◌, if◌then◌else◌, leb, arith}
use neuralmesh.Crypto.{
  Schemes, IsPair, pq_from_hex, ok, IsCorrect, pq_detached, err, stale, ed_from_hex, PqKeypair,
}
use neuralmesh.Crypto.Attestation.{MacChipInfo, ensure_fresh}
use neuralmesh.Crypto.Hybrid.{
  signing_bytes, on_chain_commitment, create, verify, new_claim, HybridClaim,
}
use neuralmesh.Crypto.Hybrid.Accepted.{same_bytes_refl}
use neuralmesh.Crypto.Keys.{pq_verify-pq_detached, ed_verify-ed_sign}

pub ed_from_hex-public :
    (S : Schemes) (seed : List ℕ)
    → IsCorrect S
    → ed_from_hex S (S.hex_encode (S.ed_public seed)) ≡ ok (S.ed_public seed)
unfolding ed_from_hex
ed_from_hex-public S seed laws =
    rw
      (laws.decode_encode (S.ed_public seed), laws.length_ed_public seed, laws.ed_public_valid seed)
      refl

pub pq_from_hex-public :
    (S : Schemes) (k : PqKeypair)
    → IsCorrect S
    → IsPair S k
    → pq_from_hex S (S.hex_encode k.pub_key) ≡ ok k.pub_key
unfolding pq_from_hex
pq_from_hex-public S k laws pair = rw (laws.decode_encode k.pub_key, pair.public_valid) refl

pub ensure_fresh_lem :
    (now timestamp : ℕ)
    → ensure_fresh now timestamp ≡ (if leb now (timestamp + 300) then ok tt else err stale)
unfolding ensure_fresh
ensure_fresh_lem now timestamp = ground arith

-- An attestation that a node has created with a new claim, under a pair of keys of each scheme, is
-- accepted at every time up to five minutes after its creation, and is stale from then on.
pub verify-create :
    (S : Schemes) (json : HybridClaim → List ℕ) (seed : List ℕ) (pq : PqKeypair) (job_id : String)
    (chip : MacChipInfo) (gpu_vendor gpu_model : String) (nonce created now : ℕ)
    → IsCorrect S
    → IsPair S pq
    → verify S json
        (create S json seed pq
          (new_claim S json seed pq job_id chip gpu_vendor gpu_model nonce created))
        now
      ≡ (if leb now (created + 300) then ok tt else err stale)
unfolding verify create new_claim
verify-create S json seed pq job_id chip gpu_vendor gpu_model nonce created now laws pair =
    let a =
      create S json seed pq
        (new_claim S json seed pq job_id chip gpu_vendor gpu_model nonce created) in
    let signing = signing_bytes S json a.claim in
    let ed_sig = S.ed_sign seed signing in
    let dil3_sig = pq_detached S pq signing in
    let commitment = on_chain_commitment S json signing ed_sig dil3_sig in
    rw
      (
        ed_from_hex-public S seed laws,
        laws.decode_encode ed_sig,
        ed_verify-ed_sign S seed signing laws,
        pq_from_hex-public S pq laws pair,
        laws.decode_encode dil3_sig,
        pq_verify-pq_detached S pq signing pair,
        laws.decode_encode commitment,
        same_bytes_refl commitment,
      )
      (ensure_fresh_lem now created)
