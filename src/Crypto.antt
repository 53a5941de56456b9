-- ===== src/Crypto.antt =====
-- The keys of a node, crates/nm-crypto/src/keys.rs and pq_keys.rs. The signature schemes, the hashes and the
-- hex code are libraries: the parameter Schemes, with what they document as the laws IsCorrect. Keys and
-- messages are lists of bytes. The key encapsulation of pq_keys.rs only calls a library.
pub mod Keys
pub mod Attestation
pub mod Hybrid
mod Tests
use Prim.Native.String.{String}
use neuralmesh.Common.{
  Bool, true, none, List, ◌-◌, Option, ◌++◌, some, ℕ, ◌≡◌, false, ◌+◌, ◌==◌, take, drop, length,
}

pub record Schemes : Type 0 where
  -- Ed25519: the verifying key of a seed, a signature, and its verification
  pub ed_public : List ℕ → List ℕ
  pub ed_sign : List ℕ → List ℕ → List ℕ
  pub is_ed_public : List ℕ → Bool
  pub ed_accepts : List ℕ → List ℕ → List ℕ → Bool
  -- Dilithium3, whose signed message is opened to the message
  pub public_key_bytes : ℕ
  pub secret_key_bytes : ℕ
  pub signature_bytes : ℕ
  pub is_pq_public : List ℕ → Bool
  pub is_pq_secret : List ℕ → Bool
  pub pq_sign : List ℕ → List ℕ → List ℕ
  pub pq_open : List ℕ → List ℕ → Option (List ℕ)
  pub sha256 : List ℕ → List ℕ
  pub blake3 : List ℕ → List ℕ
  pub hex_encode : List ℕ → String
  pub hex_decode : String → Option (List ℕ)

pub data CryptoError : Type 0 where
  invalid_hex wrong_length invalid_key bad_signature commitment_mismatch stale : CryptoError

pub data Result (A : Type 0) : Type 0 where
  ok : A → Result A
  err : CryptoError → Result A

infixl 5 ◌>>=◌ ◌>>◌
abbrev pub ◌>>=◌ : {A B : Type 0} → Result A → (A → Result B) → Result B
ok a >>= f = f a
err e >>= f = err e

abbrev pub ◌>>◌ : {B : Type 0} → Result (Unit {0}) → Result B → Result B
m >> k = m >>= λ _. k

abbrev pub ensure : Bool → CryptoError → Result (Unit {0})
ensure true e = ok tt
ensure false e = err e

abbrev pub or_error : {A : Type 0} → Option A → CryptoError → Result A
or_error none e = err e
or_error (some a) e = ok a

pub record PqKeypair : Type 0 where
  pub pub_key : List ℕ
  pub sec_key : List ℕ

module _ (S : Schemes) where
  abbrev pub decode : String → Result (List ℕ)
  decode s = or_error (S.hex_decode s) invalid_hex

  -- NmKeypair: the file has the 32 bytes of the seed.
  abbrev pub load_seed : List ℕ → Result (List ℕ)
  load_seed bytes = do ensure (length bytes == 32) wrong_length; ok bytes

  -- NmPublicKey
  unfoldable pub ed_from_hex : String → Result (List ℕ)
  ed_from_hex hex_str = do
    bytes ← decode hex_str
    ensure (length bytes == 32) wrong_length
    ensure (S.is_ed_public bytes) invalid_key
    ok bytes

  unfoldable pub ed_verify : List ℕ → List ℕ → List ℕ → Result (Unit {0})
  ed_verify key message signature = do
    ensure (length signature == 64) wrong_length
    ensure (S.ed_accepts key message signature) bad_signature

  -- PqKeypair: the file has both keys.
  unfoldable pub save_pq : PqKeypair → List ℕ
  save_pq k = k.pub_key ++ k.sec_key

  unfoldable pub load_pq : List ℕ → Result PqKeypair
  load_pq raw = do
    ensure (length raw == S.public_key_bytes + S.secret_key_bytes) wrong_length
    ensure (S.is_pq_public (take S.public_key_bytes raw)) invalid_key
    ensure (S.is_pq_secret (drop S.public_key_bytes raw)) invalid_key
    ok (record { pub_key = take S.public_key_bytes raw; sec_key = drop S.public_key_bytes raw })

  -- The signed message without the message at its end.
  unfoldable pub pq_detached : PqKeypair → List ℕ → List ℕ
  pq_detached k message =
      let signed = S.pq_sign message k.sec_key in take (length signed - length message) signed

  -- PqPublicKey
  unfoldable pub pq_from_hex : String → Result (List ℕ)
  pq_from_hex hex_str = do
    bytes ← decode hex_str
    ensure (S.is_pq_public bytes) invalid_key
    ok bytes

  abbrev pub is_opened : Option (List ℕ) → Bool
  is_opened none = false
  is_opened (some message) = true

  unfoldable pub pq_verify : List ℕ → List ℕ → List ℕ → Result (Unit {0})
  pq_verify key message signature = do
    ensure (length signature == S.signature_bytes) wrong_length
    ensure (is_opened (S.pq_open (signature ++ message) key)) bad_signature

-- What the libraries document.
pub record IsCorrect (S : Schemes) : Type 0 where
  pub decode_encode : (bs : List ℕ) → S.hex_decode (S.hex_encode bs) ≡ some bs
  pub length_ed_public : (seed : List ℕ) → length (S.ed_public seed) ≡ 32
  pub ed_public_valid : (seed : List ℕ) → S.is_ed_public (S.ed_public seed) ≡ true
  pub length_ed_sign : (seed m : List ℕ) → length (S.ed_sign seed m) ≡ 64
  pub ed_sign_accepted :
      (seed m : List ℕ) → S.ed_accepts (S.ed_public seed) m (S.ed_sign seed m) ≡ true

-- Keys that were generated together.
pub record IsPair (S : Schemes) (k : PqKeypair) : Type 0 where
  pub length_public : length k.pub_key ≡ S.public_key_bytes
  pub length_secret : length k.sec_key ≡ S.secret_key_bytes
  pub public_valid : S.is_pq_public k.pub_key ≡ true
  pub secret_valid : S.is_pq_secret k.sec_key ≡ true
  pub signature_first :
      (m : List ℕ)
      → (sig : List ℕ) × (S.pq_sign m k.sec_key ≡ sig ++ m) × (length sig ≡ S.signature_bytes)
  pub opened : (m : List ℕ) → S.pq_open (S.pq_sign m k.sec_key) k.pub_key ≡ some m
