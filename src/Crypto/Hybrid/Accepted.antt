-- ===== src/Crypto/Hybrid/Accepted.antt =====
-- What the steps of a verification have found when it succeeds.
use neuralmesh.Common.{
  List, ℕ, ◌≡◌, refl, ◌∷◌, false, Bool, true, [], eqb_refl, ◌&&◌, ◌==◌, eqb→eq, arith,
}
use neuralmesh.Crypto.{
  Result, Schemes, ok, err, commitment_mismatch, pq_verify, pq_from_hex, ed_verify, ed_from_hex,
  CryptoError, ensure, ◌>>=◌, decode,
}
use neuralmesh.Crypto.Attestation.{ensure_fresh}
use neuralmesh.Crypto.Hybrid.{
  HybridClaim, same_bytes, signing_bytes, on_chain_commitment, verify, HybridAttestation,
}

-- The values that the steps of `verify` name, and that each step succeeds.
pub record IsAccepted (S : Schemes) (json : HybridClaim → List ℕ) (a : HybridAttestation) (now : ℕ)
    : Type 0 where
  pub ed_key : List ℕ
  pub ed_sig : List ℕ
  pub pq_key : List ℕ
  pub dil3_sig : List ℕ
  pub stored : List ℕ
  pub ed_key_read : ed_from_hex S a.claim.ed25519_pubkey ≡ ok ed_key
  pub ed_sig_read : decode S a.ed25519_sig ≡ ok ed_sig
  pub ed_verified : ed_verify S ed_key (signing_bytes S json a.claim) ed_sig ≡ ok tt
  pub pq_key_read : pq_from_hex S a.claim.dilithium3_pubkey ≡ ok pq_key
  pub dil3_sig_read : decode S a.dilithium3_sig ≡ ok dil3_sig
  pub pq_verified : pq_verify S pq_key (signing_bytes S json a.claim) dil3_sig ≡ ok tt
  pub stored_read : decode S a.on_chain_commitment ≡ ok stored
  pub commits :
      same_bytes (on_chain_commitment S json (signing_bytes S json a.claim) ed_sig dil3_sig) stored
      ≡ true
  pub is_fresh : ensure_fresh now a.claim.timestamp ≡ ok tt

pub bind-ok :
    {A B : Type 0} (r : Result A) (f : A → Result B) {b : B}
    → (r >>= f) ≡ ok b
    → (a : A) × (r ≡ ok a) × (f a ≡ ok b)
bind-ok (ok a) f e = (a, refl, e)
bind-ok (err x) f e = ground arith

pub ensure-ok : (b : Bool) (e : CryptoError) {u : Unit {0}} → ensure b e ≡ ok u → b ≡ true
ensure-ok true e h = refl
ensure-ok false e h = ground arith

and_true : (a b : Bool) → (a && b) ≡ true → (a ≡ true) × (b ≡ true)
and_true true b h = (refl, h)
and_true false b h = ground arith

pub same_bytes→eq : (xs ys : List ℕ) → same_bytes xs ys ≡ true → xs ≡ ys
same_bytes→eq [] [] h = refl
same_bytes→eq [] (y ∷ ys) h = ground arith
same_bytes→eq (x ∷ xs) [] h = ground arith
same_bytes→eq (x ∷ xs) (y ∷ ys) h =
    let both = and_true (x == y) (same_bytes xs ys) h in
    rw (eqb→eq x y both.0, same_bytes→eq xs ys both.1) refl

pub same_bytes_refl : (xs : List ℕ) → same_bytes xs xs ≡ true
same_bytes_refl [] = refl
same_bytes_refl (x ∷ xs) = rw (eqb_refl x) (same_bytes_refl xs)

pub verify-IsAccepted :
    (S : Schemes) (json : HybridClaim → List ℕ) (a : HybridAttestation) (now : ℕ)
    → verify S json a now ≡ ok tt
    → IsAccepted S json a now
unfolding verify
verify-IsAccepted S json a now h =
    let k = bind-ok (ed_from_hex S a.claim.ed25519_pubkey) _ h in
    let s = bind-ok (decode S a.ed25519_sig) _ k.2 in
    let v = bind-ok (ed_verify S k.0 (signing_bytes S json a.claim) s.0) _ s.2 in
    let pk = bind-ok (pq_from_hex S a.claim.dilithium3_pubkey) _ v.2 in
    let ps = bind-ok (decode S a.dilithium3_sig) _ pk.2 in
    let pv = bind-ok (pq_verify S pk.0 (signing_bytes S json a.claim) ps.0) _ ps.2 in
    let c = bind-ok (decode S a.on_chain_commitment) _ pv.2 in
    let m =
      bind-ok
        (ensure
          (same_bytes (on_chain_commitment S json (signing_bytes S json a.claim) s.0 ps.0) c.0)
          commitment_mismatch)
        _ c.2 in
    record {
      ed_key = k.0;
      ed_sig = s.0;
      pq_key = pk.0;
      dil3_sig = ps.0;
      stored = c.0;
      ed_key_read = k.1;
      ed_sig_read = s.1;
      ed_verified = v.1;
      pq_key_read = pk.1;
      dil3_sig_read = ps.1;
      pq_verified = pv.1;
      stored_read = c.1;
      commits = ensure-ok _ commitment_mismatch m.1;
      is_fresh = m.2;
    }
