-- ===== src/Crypto/Tests.antt =====
-- Schemes of small numbers that have the laws, and attestations under them.
use mathlib.Core.Option
use Prim.Native.String.{String}
use neuralmesh.Common.{
  refl, [], ◌≡◌, ℕ, List, some, ap, Option, suc, none, ◌++◌, true, ◌∙◌, arith, ◌∷◌, zero, ◌+◌,
  if◌then◌else◌, ◌==◌, length, length-append, take, drop, ◌⊎◌,
}
use neuralmesh.Common.Text.{bytes}
use neuralmesh.Crypto.{
  Schemes, IsPair, IsCorrect, PqKeypair, decode, load_pq, err, ok, save_pq, stale,
}
use neuralmesh.Crypto.Attestation.{MacChipInfo}
use neuralmesh.Crypto.Hybrid.{
  create, verify, signing_bytes, same_bytes, HybridAttestation, HybridClaim, new_claim,
}
use neuralmesh.Crypto.Hybrid.Accepted.{same_bytes_refl}
use neuralmesh.Crypto.Hybrid.Age.{verify-age}
use neuralmesh.Crypto.Hybrid.Binding.{verify-binding, Collide}
use neuralmesh.Crypto.Hybrid.Created.{verify-create}
use neuralmesh.Crypto.Keys.{load_pq-save_pq}

abbrev zeros : ℕ → List ℕ
zeros zero = []
zeros (suc n) = 0 ∷ zeros n

-- The first n numbers, and zeros after them.
abbrev pad : ℕ → List ℕ → List ℕ
pad zero xs = []
pad (suc n) [] = 0 ∷ pad n []
pad (suc n) (x ∷ xs) = x ∷ pad n xs

length-pad : (n : ℕ) (xs : List ℕ) → length (pad n xs) ≡ n
length-pad zero xs = refl
length-pad (suc n) [] = ap suc (length-pad n [])
length-pad (suc n) (x ∷ xs) = ap suc (length-pad n xs)

-- A number as letters.
abbrev letters : ℕ → String → String
letters zero s = String.◌∷◌ "b" s
letters (suc n) s = String.◌∷◌ "a" (letters n s)

abbrev encode : List ℕ → String
encode [] = String.[]
encode (n ∷ ns) = letters n (encode ns)

abbrev count : ℕ → List ℕ → Option (List ℕ)
count n [] = some []
count n (c ∷ cs) =
    let more = count (suc n) cs in
    let next = count 0 cs in if c == 97 then more else Option.map (λ l. n ∷ l) next

sum_zero : (k : ℕ) → 0 + k ≡ k
sum_zero k = omega arith

sum_suc : (n k : ℕ) → suc n + k ≡ n + suc k
sum_suc n k = omega arith

count-letters :
    (k n : ℕ) (s : String)
    → count k (bytes (letters n s)) ≡ Option.map (λ l. (n + k) ∷ l) (count 0 (bytes s))
count-letters k zero s = rw (sum_zero k) refl
count-letters k (suc n) s = rw (sum_suc n k) (count-letters (suc k) n s)

count-encode : (ns : List ℕ) → count 0 (bytes (encode ns)) ≡ some ns
count-encode [] = refl
count-encode (n ∷ ns) =
    let same : n + 0 ≡ n = omega arith in
    rw (count-letters 0 n (encode ns), count-encode ns, same) refl

abbrev small_schemes : Schemes
small_schemes = record {
  ed_public = λ seed. pad 32 seed;
  ed_sign = λ seed m. pad 32 seed ++ pad 32 m;
  is_ed_public = λ key. true;
  ed_accepts = λ key m sig. same_bytes sig (key ++ pad 32 m);
  public_key_bytes = 2;
  secret_key_bytes = 2;
  signature_bytes = 2;
  is_pq_public = λ key. length key == 2;
  is_pq_secret = λ key. length key == 2;
  pq_sign = λ m key. key ++ m;
  pq_open = λ signed key. if same_bytes (take 2 signed) key then some (drop 2 signed) else none;
  sha256 = λ m. pad 32 m;
  blake3 = λ m. pad 32 m;
  hex_encode = λ bs. encode bs;
  hex_decode = λ s. count 0 (bytes s);
}

small-IsCorrect : IsCorrect small_schemes
small-IsCorrect = record {
  decode_encode = λ bs. count-encode bs;
  length_ed_public = λ seed. length-pad 32 seed;
  ed_public_valid = λ seed. refl;
  length_ed_sign = λ seed m.
      length-append (pad 32 seed) (pad 32 m) ∙ omega (arith, length-pad 32 seed, length-pad 32 m);
  ed_sign_accepted = λ seed m. same_bytes_refl (pad 32 seed ++ pad 32 m);
}

abbrev small_pair : PqKeypair
small_pair = record { pub_key = 7 ∷ (9 ∷ []); sec_key = 7 ∷ (9 ∷ []) }

small_pair-IsPair : IsPair small_schemes small_pair
small_pair-IsPair = record {
  length_public = refl;
  length_secret = refl;
  public_valid = refl;
  secret_valid = refl;
  signature_first = λ m. (7 ∷ (9 ∷ []), refl, refl);
  opened = λ m. refl;
}

abbrev m4 : MacChipInfo
m4 = record {
  chip_model = "M4";
  unified_memory_gb = 16;
  gpu_cores = 10;
  cpu_cores = 10;
  metal_version = "3.2";
  serial_number = "C02";
  platform_uuid = "U";
  macos_version = "14.5";
}

-- The text of a claim is its job, its time and its nonce.
abbrev claim_text : HybridClaim → List ℕ
claim_text c = c.timestamp ∷ (c.nonce ∷ bytes c.job_id)

abbrev attested : String → ℕ → HybridAttestation
attested job_id now =
    create small_schemes claim_text (5 ∷ []) small_pair
      (new_claim small_schemes claim_text (5 ∷ []) small_pair job_id m4 "apple" "M4" 3 now)

abbrev dated : ℕ → HybridAttestation
dated now = attested "job" now

-- Attestations of two jobs whose names differ after the bytes that the small hash reads.
abbrev first_job : HybridAttestation
first_job = attested "a job whose name has many letters, the first" 1000

abbrev second_job : HybridAttestation
second_job = attested "a job whose name has many letters, the second" 1000

first-accepted : verify small_schemes claim_text first_job 20 ≡ ok tt
first-accepted =
    verify-create small_schemes claim_text (5 ∷ []) small_pair
      "a job whose name has many letters, the first" m4 "apple" "M4" 3 1000 20 small-IsCorrect
      small_pair-IsPair

second-accepted : verify small_schemes claim_text second_job 40 ≡ ok tt
second-accepted =
    verify-create small_schemes claim_text (5 ∷ []) small_pair
      "a job whose name has many letters, the second" m4 "apple" "M4" 3 1000 40 small-IsCorrect
      small_pair-IsPair

load_pq-save_pq_example : load_pq small_schemes (save_pq small_schemes small_pair) ≡ ok small_pair
load_pq-save_pq_example = load_pq-save_pq small_schemes small_pair small_pair-IsPair

verify-create_example : verify small_schemes claim_text (dated 1000) 1301 ≡ err stale
verify-create_example =
    verify-create small_schemes claim_text (5 ∷ []) small_pair "job" m4 "apple" "M4" 3 1000 1301
      small-IsCorrect small_pair-IsPair

dated-accepted : verify small_schemes claim_text (dated 1000) 20 ≡ ok tt
dated-accepted =
    verify-create small_schemes claim_text (5 ∷ []) small_pair "job" m4 "apple" "M4" 3 1000 20
      small-IsCorrect small_pair-IsPair

verify-age_example : verify small_schemes claim_text (dated 1000) 1300 ≡ ok tt
unfolding create new_claim
verify-age_example = verify-age small_schemes claim_text (dated 1000) 20 1300 dated-accepted

verify-binding_example :
    ((claim_text first_job.claim ≡ claim_text second_job.claim)
      × (decode small_schemes first_job.ed25519_sig ≡ decode small_schemes second_job.ed25519_sig)
      × (decode small_schemes first_job.dilithium3_sig
          ≡ decode small_schemes second_job.dilithium3_sig))
    ⊎ (Collide small_schemes.blake3 (claim_text first_job.claim) (claim_text second_job.claim)
        ⊎ ((ed_a dil_a ed_b dil_b : List ℕ) × (decode small_schemes first_job.ed25519_sig ≡ ok ed_a)
            × (decode small_schemes first_job.dilithium3_sig ≡ ok dil_a)
            × (decode small_schemes second_job.ed25519_sig ≡ ok ed_b)
            × (decode small_schemes second_job.dilithium3_sig ≡ ok dil_b)
            × Collide small_schemes.blake3
                (small_schemes.blake3 (claim_text first_job.claim) ++ (ed_a ++ dil_a))
                (small_schemes.blake3 (claim_text second_job.claim) ++ (ed_b ++ dil_b))))
unfolding new_claim create signing_bytes
verify-binding_example =
    verify-binding small_schemes claim_text first_job second_job 20 40 (λ x. length-pad 32 x)
      first-accepted second-accepted refl
