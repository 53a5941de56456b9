-- ===== src/Crypto/Hybrid.antt =====
-- The claim of a provider that is signed with both schemes, crates/nm-crypto/src/hybrid_attestation.rs.
-- The JSON text of a claim comes from a library: the parameter `json`. The time and the random nonce of a
-- new claim are arguments, and so is the time of a verification.
pub mod Accepted
pub mod Created
pub mod Binding
pub mod Age
use Prim.Native.String.{String}
use neuralmesh.Common.{◌&&◌, List, ℕ, false, [], ◌++◌, ◌∷◌, true, Bool, ◌==◌, length}
use neuralmesh.Crypto.{
  pq_from_hex, decode, PqKeypair, Schemes, ed_from_hex, Result, commitment_mismatch, ◌>>=◌,
  wrong_length, pq_detached, ed_verify, pq_verify, ◌>>◌, ensure, ok,
}
use neuralmesh.Crypto.Attestation.{MacChipInfo, ensure_fresh}

pub record HybridClaim : Type 0 where
  pub ed25519_pubkey : String
  pub dilithium3_pubkey : String
  pub job_id : String
  pub chip : MacChipInfo
  pub gpu_vendor : String
  pub gpu_model : String
  pub nonce : ℕ
  pub timestamp : ℕ
  pub version : ℕ

pub record HybridAttestation : Type 0 where
  pub claim : HybridClaim
  pub ed25519_sig : String
  pub dilithium3_sig : String
  pub on_chain_commitment : String

-- `==` on two slices of bytes.
abbrev pub same_bytes : List ℕ → List ℕ → Bool
same_bytes [] [] = true
same_bytes [] (y ∷ ys) = false
same_bytes (x ∷ xs) [] = false
same_bytes (x ∷ xs) (y ∷ ys) = (x == y) && same_bytes xs ys

module _ (S : Schemes) (json : HybridClaim → List ℕ) where
  unfoldable pub signing_bytes : HybridClaim → List ℕ
  signing_bytes claim = S.blake3 (json claim)

  unfoldable pub on_chain_commitment : List ℕ → List ℕ → List ℕ → List ℕ
  on_chain_commitment signing ed_sig dil3_sig = S.blake3 (signing ++ (ed_sig ++ dil3_sig))

  -- `HybridClaim::new`
  unfoldable pub new_claim :
      List ℕ → PqKeypair → String → MacChipInfo → String → String → ℕ → ℕ → HybridClaim
  new_claim seed pq job_id chip gpu_vendor gpu_model nonce now = record {
    ed25519_pubkey = S.hex_encode (S.ed_public seed);
    dilithium3_pubkey = S.hex_encode pq.pub_key;
    job_id = job_id;
    chip = chip;
    gpu_vendor = gpu_vendor;
    gpu_model = gpu_model;
    nonce = nonce;
    timestamp = now;
    version = 1;
  }

  -- `HybridAttestation::create` of a new claim.
  unfoldable pub create : List ℕ → PqKeypair → HybridClaim → HybridAttestation
  create seed pq claim =
      let signing = signing_bytes claim in
      let ed_sig = S.ed_sign seed signing in
      let dil3_sig = pq_detached S pq signing in
      record {
        claim = claim;
        ed25519_sig = S.hex_encode ed_sig;
        dilithium3_sig = S.hex_encode dil3_sig;
        on_chain_commitment = S.hex_encode (on_chain_commitment signing ed_sig dil3_sig);
      }

  unfoldable pub verify : HybridAttestation → ℕ → Result (Unit {0})
  verify a now = do
    ed_pubkey ← ed_from_hex S a.claim.ed25519_pubkey
    ed_sig ← decode S a.ed25519_sig
    ed_verify S ed_pubkey (signing_bytes a.claim) ed_sig
    pq_pubkey ← pq_from_hex S a.claim.dilithium3_pubkey
    dil3_sig ← decode S a.dilithium3_sig
    pq_verify S pq_pubkey (signing_bytes a.claim) dil3_sig
    stored ← decode S a.on_chain_commitment
    ensure (same_bytes (on_chain_commitment (signing_bytes a.claim) ed_sig dil3_sig) stored)
        commitment_mismatch
    ensure_fresh now a.claim.timestamp

  unfoldable pub commitment_bytes : HybridAttestation → Result (List ℕ)
  commitment_bytes a = do
    bytes ← decode S a.on_chain_commitment
    ensure (length bytes == 32) wrong_length
    ok bytes
