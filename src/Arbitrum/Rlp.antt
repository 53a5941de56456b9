-- ===== src/Arbitrum/Rlp.antt =====
-- The RLP of an integer, read back.
use neuralmesh.Common.{
  List, ◌<◌, [], ◌^◌, ℕ, ◌-◌, refl, ◌≤◌, ap, ◌∷◌, ◌≡◌, if◌then◌else◌, ltb, length, drop, take, inl,
  true, ◌++◌, ◌+◌, ◌∙◌, false, inr, ◌%◌, arith, ◌==◌, lt→ltb, Bool-cases, take-length, ◌*◌,
}
use neuralmesh.Arbitrum.{
  rlp_append_uint, rlp_append_minimal, rlp_length_encode, strip_zeros, be_bytes, is_own_encoding,
}
use neuralmesh.Arbitrum.Words.{
  of_be, length-be_bytes, of_be-be_bytes, length-strip_zeros, of_be-strip_zeros, of_be_from,
}

-- An RLP integer: a byte below 128 is its own value; else the byte gives the number of bytes after it.
pub rlp_decode_uint : List ℕ → ℕ
rlp_decode_uint [] = 0
rlp_decode_uint (b ∷ bs) = if ltb b 128 then b else of_be (take (b - 128) bs)

length_encode-small : (n : ℕ) → n ≤ 16 → rlp_length_encode n ≡ (128 + n) ∷ []
unfolding rlp_length_encode
length_encode-small n h =
    let small : (128 + n) % 256 ≡ 128 + n = omega arith in rw (lt→ltb n 56 (omega arith), small)

decode-header : (n : ℕ) (bs : List ℕ) → rlp_decode_uint ((128 + n) ∷ bs) ≡ of_be (take n bs)
unfolding rlp_decode_uint
decode-header n bs =
    let big : ltb (128 + n) 128 ≡ false = ground arith in
    let rest : 128 + n - 128 ≡ n = omega arith in rw (big, rest)

decode-long :
    (bs : List ℕ)
    → length bs ≤ 16
    → rlp_decode_uint (rlp_length_encode (length bs) ++ bs) ≡ of_be bs
decode-long bs h =
    rw (length_encode-small (length bs) h)
      (decode-header (length bs) bs ∙ ap of_be (take-length bs))

decode-own : (bs : List ℕ) → is_own_encoding bs ≡ true → rlp_decode_uint bs ≡ of_be bs
unfolding rlp_decode_uint of_be of_be_from
decode-own [] e = absurd (ground arith)
decode-own (b ∷ []) e = let same : b ≡ 0 * 256 + b = omega arith in rw e same
decode-own (b ∷ (c ∷ bs)) e = absurd (ground arith)

decode-zero : (v : ℕ) → (v == 0) ≡ true → rlp_decode_uint (128 ∷ []) ≡ v
unfolding rlp_decode_uint of_be of_be_from
decode-zero v h = let same : 0 ≡ v = ground arith in same

decode-minimal :
    (bs : List ℕ) → length bs ≤ 16 → rlp_decode_uint (rlp_append_minimal [] bs) ≡ of_be bs
unfolding rlp_append_minimal
decode-minimal bs h = elim (Bool-cases (is_own_encoding bs)) [
  | inl own ↦ rw own (decode-own bs own)
  | inr long ↦ rw long (decode-long bs h)
]

append_minimal-buf : (buf bs : List ℕ) → rlp_append_minimal buf bs ≡ buf ++ rlp_append_minimal [] bs
unfolding rlp_append_minimal
append_minimal-buf buf bs = elim (Bool-cases (is_own_encoding bs)) [
  | inl own ↦ rw own
  | inr long ↦ rw long
]

-- An integer of 128 bits that is appended to an RLP buffer reads back from what was appended.
pub decode-append_uint :
    (buf : List ℕ) (v : ℕ)
    → v < 2 ^ 128
    → rlp_decode_uint (drop (length buf) (rlp_append_uint buf v)) ≡ v
unfolding rlp_append_uint
decode-append_uint buf v h = elim (Bool-cases (v == 0)) [
  | inl is_zero ↦ rw (is_zero, after buf (128 ∷ [])) (decode-zero v is_zero)
  | inr positive ↦
      rw
        (
          positive,
          append_minimal-buf buf (strip_zeros (be_bytes 16 v)),
          after buf (rlp_append_minimal [] (strip_zeros (be_bytes 16 v))),
        )
        (decode-minimal (strip_zeros (be_bytes 16 v))
            (omega (arith, length-strip_zeros (be_bytes 16 v), length-be_bytes 16 v))
          ∙ of_be-strip_zeros (be_bytes 16 v)
          ∙ of_be-be_bytes 16 v (omega arith))
]
  where
    after : (xs ys : List ℕ) → drop (length xs) (xs ++ ys) ≡ ys
    after [] ys = refl
    after (x ∷ xs) ys = after xs ys
