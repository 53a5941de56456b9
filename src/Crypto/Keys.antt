-- ===== src/Crypto/Keys.antt =====
-- Keys that are saved and loaded, and signatures that are taken apart and put together.
use neuralmesh.Common.{
  List, ℕ, ◌≡◌, refl, ◌++◌, arith, ◌-◌, ◌∙◌, ◌+◌, some, subst, eqb_refl, length-append, take-append,
  drop-past, drop, take, length,
}
use neuralmesh.Crypto.{
  IsCorrect, ed_verify, pq_detached, IsPair, pq_verify, PqKeypair, ok, Schemes, load_pq, save_pq,
}

pub drop-append : (xs ys : List ℕ) → drop (length xs) (xs ++ ys) ≡ ys
drop-append xs ys = subst (λ n. drop n (xs ++ ys) ≡ ys) (sum_zero (length xs)) (drop-past xs ys 0)
  where
    sum_zero : (n : ℕ) → n + 0 ≡ n
    sum_zero n = omega arith

sum_eq : {a b c d : ℕ} → a ≡ b → c ≡ d → a + c ≡ b + d
sum_eq e f = omega (arith, e, f)

-- A pair of keys that is saved is loaded again.
pub load_pq-save_pq : (S : Schemes) (k : PqKeypair) → IsPair S k → load_pq S (save_pq S k) ≡ ok k
unfolding load_pq save_pq
load_pq-save_pq S k pair =
    let whole : length (k.pub_key ++ k.sec_key) ≡ S.public_key_bytes + S.secret_key_bytes =
      length-append k.pub_key k.sec_key ∙ sum_eq pair.length_public pair.length_secret in
    let first : take S.public_key_bytes (k.pub_key ++ k.sec_key) ≡ k.pub_key =
      subst (λ n. take n (k.pub_key ++ k.sec_key) ≡ k.pub_key) pair.length_public
        (take-append k.pub_key k.sec_key) in
    let rest : drop S.public_key_bytes (k.pub_key ++ k.sec_key) ≡ k.sec_key =
      subst (λ n. drop n (k.pub_key ++ k.sec_key) ≡ k.sec_key) pair.length_public
        (drop-append k.pub_key k.sec_key) in
    rw
      (
        whole,
        eqb_refl (S.public_key_bytes + S.secret_key_bytes),
        first,
        rest,
        pair.public_valid,
        pair.secret_valid,
      )
      refl

-- The signature that is taken off a signed message is that of the pair.
pub detached-signature :
    (S : Schemes) (k : PqKeypair) (m : List ℕ) (pair : IsPair S k)
    → pq_detached S k m ≡ (pair.signature_first m).0
unfolding pq_detached
detached-signature S k m pair =
    let sig = (pair.signature_first m).0 in
    let signed : S.pq_sign m k.sec_key ≡ sig ++ m = (pair.signature_first m).1 in
    let rest : length (sig ++ m) - length m ≡ length sig = omega (arith, length-append sig m) in
    rw (signed, rest) (take-append sig m)

-- The detached signature of a pair is accepted under its public key.
pub pq_verify-pq_detached :
    (S : Schemes) (k : PqKeypair) (m : List ℕ)
    → IsPair S k
    → pq_verify S k.pub_key m (pq_detached S k m) ≡ ok tt
unfolding pq_verify
pq_verify-pq_detached S k m pair =
    let first = pair.signature_first m in
    let size : length first.0 ≡ S.signature_bytes = first.2 in
    let opens : S.pq_open (first.0 ++ m) k.pub_key ≡ some m =
      subst (λ s. S.pq_open s k.pub_key ≡ some m) first.1 (pair.opened m) in
    rw (detached-signature S k m pair, size, eqb_refl S.signature_bytes, opens) refl

pub ed_verify-ed_sign :
    (S : Schemes) (seed m : List ℕ)
    → IsCorrect S
    → ed_verify S (S.ed_public seed) m (S.ed_sign seed m) ≡ ok tt
unfolding ed_verify
ed_verify-ed_sign S seed m laws = rw (laws.length_ed_sign seed m, laws.ed_sign_accepted seed m) refl
