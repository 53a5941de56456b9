-- ===== src/Crypto/Hybrid/Binding.antt =====
-- What the commitment on the chain binds.
use neuralmesh.Common.{
  List, ℕ, ◌≡◌, ap, inr, false, ◌∙◌, subst, inl, ◌⊎◌, ◌≢◌, ◌++◌, sym, ◌==◌, eqb→eq, Bool-cases,
  drop, take, length, take-append, true, arith, [],
}
use neuralmesh.Crypto.{wrong_length, Schemes, ok, ensure, ed_verify, decode, err, Result}
use neuralmesh.Crypto.Hybrid.{
  signing_bytes, same_bytes, on_chain_commitment, verify, HybridClaim, HybridAttestation,
}
use neuralmesh.Crypto.Hybrid.Accepted.{
  ensure-ok, same_bytes→eq, bind-ok, verify-IsAccepted, same_bytes_refl,
}
use neuralmesh.Crypto.Keys.{drop-append}

-- The byte strings differ and have the same hash.
abbrev pub Collide : (List ℕ → List ℕ) → List ℕ → List ℕ → Type 0
Collide hash x y = (x ≢ y) × (hash x ≡ hash y)

pub different : (x y : List ℕ) → same_bytes x y ≡ false → x ≢ y
different x y e same =
    let yes : same_bytes x y ≡ true = subst (λ z. same_bytes x z ≡ true) same (same_bytes_refl x) in
    ground (arith, e, yes)

same-or-Collide :
    (hash : List ℕ → List ℕ) (x y : List ℕ) → hash x ≡ hash y → (x ≡ y) ⊎ Collide hash x y
same-or-Collide hash x y h = elim (Bool-cases (same_bytes x y)) [
  | inl e ↦ inl (same_bytes→eq x y e)
  | inr e ↦ inr (different x y e, h)
]

pub append_injective :
    (xs ys us vs : List ℕ) → length xs ≡ length ys → (xs ++ us) ≡ (ys ++ vs) → (xs ≡ ys) × (us ≡ vs)
append_injective xs ys us vs size same = (
  sym (take-append xs us)
      ∙ (ap (take (length xs)) same
          ∙ (subst (λ n. take n (ys ++ vs) ≡ ys) (sym size) (take-append ys vs))),
  sym (drop-append xs us)
      ∙ (ap (drop (length xs)) same
          ∙ (subst (λ n. drop n (ys ++ vs) ≡ vs) (sym size) (drop-append ys vs))),
)

ok_injective : {a b : List ℕ} → Result.ok a ≡ Result.ok b → a ≡ b
ok_injective e = ap value e
  where
    value : Result (List ℕ) → List ℕ
    value (ok x) = x
    value (err x) = []

-- A signature that Ed25519 has verified has 64 bytes.
pub ed_verify-length :
    (S : Schemes) (key message signature : List ℕ)
    → ed_verify S key message signature ≡ ok tt
    → length signature ≡ 64
unfolding ed_verify
ed_verify-length S key message signature h =
    let b = bind-ok (ensure (length signature == 64) wrong_length) _ h in
    eqb→eq (length signature) 64 (ensure-ok _ wrong_length b.1)

-- Of two attestations that are accepted, each at a time of its own, and that have the same commitment, one
-- of three things holds: the claims have the same JSON text and the two signatures are the same; the two
-- JSON texts differ and collide under BLAKE3; or the two strings that the commitments are hashes of, the
-- hash of the claim and the two decoded signatures, differ and collide. The values of BLAKE3 have 32 bytes.
pub verify-binding :
    (S : Schemes) (json : HybridClaim → List ℕ) (a b : HybridAttestation) (t u : ℕ)
    → ((x : List ℕ) → length (S.blake3 x) ≡ 32)
    → verify S json a t ≡ ok tt
    → verify S json b u ≡ ok tt
    → a.on_chain_commitment ≡ b.on_chain_commitment
    → ((json a.claim ≡ json b.claim)
        × (decode S a.ed25519_sig ≡ decode S b.ed25519_sig)
        × (decode S a.dilithium3_sig ≡ decode S b.dilithium3_sig))
      ⊎ (Collide S.blake3 (json a.claim) (json b.claim)
          ⊎ ((ed_a dil_a ed_b dil_b : List ℕ) × (decode S a.ed25519_sig ≡ ok ed_a)
              × (decode S a.dilithium3_sig ≡ ok dil_a)
              × (decode S b.ed25519_sig ≡ ok ed_b)
              × (decode S b.dilithium3_sig ≡ ok dil_b)
              × Collide S.blake3
                  (S.blake3 (json a.claim) ++ (ed_a ++ dil_a))
                  (S.blake3 (json b.claim) ++ (ed_b ++ dil_b))))
unfolding signing_bytes on_chain_commitment
verify-binding S json a b t u size ha hb same =
    let f = verify-IsAccepted S json a t ha in
    let g = verify-IsAccepted S json b u hb in
    let sa = S.blake3 (json a.claim) in
    let sb = S.blake3 (json b.claim) in
    let stored : f.stored ≡ g.stored =
      ok_injective (sym f.stored_read ∙ (ap (decode S) same ∙ g.stored_read)) in
    let hashes : S.blake3 (sa ++ (f.ed_sig ++ f.dil3_sig))
        ≡ S.blake3 (sb ++ (g.ed_sig ++ g.dil3_sig)) =
      same_bytes→eq _ _ f.commits ∙ (stored ∙ sym (same_bytes→eq _ _ g.commits)) in
    let signatures : (length f.ed_sig ≡ length g.ed_sig) =
      ed_verify-length S f.ed_key _ f.ed_sig f.ed_verified
      ∙ sym (ed_verify-length S g.ed_key _ g.ed_sig g.ed_verified) in
    elim (same-or-Collide S.blake3 _ _ hashes) [
      | inr c ↦ inr (
          inr (
            f.ed_sig, f.dil3_sig, g.ed_sig, g.dil3_sig, f.ed_sig_read, f.dil3_sig_read,
            g.ed_sig_read, g.dil3_sig_read, c,
          ))
      | inl e ↦
          let first =
            append_injective sa sb _ _ (size (json a.claim) ∙ sym (size (json b.claim))) e in
          let second = append_injective f.ed_sig g.ed_sig _ _ signatures first.1 in
          elim (same-or-Collide S.blake3 _ _ first.0) [
            | inr c ↦ inr (inl c)
            | inl j ↦ inl (
              j,
              f.ed_sig_read ∙ (ap ok second.0 ∙ sym g.ed_sig_read),
              f.dil3_sig_read ∙ (ap ok second.1 ∙ sym g.dil3_sig_read),
            )
          ]
    ]
