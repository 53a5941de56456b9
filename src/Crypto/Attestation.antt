-- ===== src/Crypto/Attestation.antt =====
-- The signed claim of a provider on its hardware, crates/nm-crypto/src/attestation.rs, signed with Ed25519.
-- The JSON text of a claim comes from a library: the parameter `json`. The time of a new claim is an
-- argument, and so is the time of a verification.
pub mod Signed
use Prim.Native.String.{String}
use neuralmesh.Common.{List, ℕ, ◌-◌, leb}
use neuralmesh.Crypto.{decode, Schemes, ed_from_hex, Result, ◌>>=◌, ed_verify, ◌>>◌, ensure, stale}

pub record MacChipInfo : Type 0 where
  pub chip_model : String
  pub unified_memory_gb : ℕ
  pub gpu_cores : ℕ
  pub cpu_cores : ℕ
  pub metal_version : String
  pub serial_number : String
  pub platform_uuid : String
  pub macos_version : String

pub record AttestationClaim : Type 0 where
  pub provider_pubkey : String
  pub job_id : String
  pub chip : MacChipInfo
  pub timestamp : ℕ

pub record Attestation : Type 0 where
  pub claim : AttestationClaim
  pub signature : String

-- An attestation of the time `timestamp` is at most five minutes old at the time `now`. The subtraction of
-- the code stops at 0.
unfoldable pub ensure_fresh : ℕ → ℕ → Result (Unit {0})
ensure_fresh now timestamp = ensure (leb (now - timestamp) 300) stale

module _ (S : Schemes) (json : AttestationClaim → List ℕ) where
  unfoldable pub signing_bytes : AttestationClaim → List ℕ
  signing_bytes claim = S.sha256 (json claim)

  -- `create` with the key pair of a seed.
  unfoldable pub create : List ℕ → String → MacChipInfo → ℕ → Attestation
  create seed job_id chip now =
      let claim : AttestationClaim = record {
        provider_pubkey = S.hex_encode (S.ed_public seed);
        job_id = job_id;
        chip = chip;
        timestamp = now;
      } in
      record { claim = claim; signature = S.hex_encode (S.ed_sign seed (signing_bytes claim)) }

  unfoldable pub verify : Attestation → ℕ → Result (Unit {0})
  verify a now = do
    pubkey ← ed_from_hex S a.claim.provider_pubkey
    sig_bytes ← decode S a.signature
    ed_verify S pubkey (signing_bytes a.claim) sig_bytes
    ensure_fresh now a.claim.timestamp
