-- ===== src/Arbitrum/Words.antt =====
-- Big-endian words read back.
use neuralmesh.Common.{
  List, ◌<◌, ◌%◌, [], ◌^◌, ℕ, ◌++◌, refl, ◌≤◌, zero, ◌/◌, suc, ◌+◌, arith, ◌*◌, ◌∷◌, ◌≡◌, length,
  replicate, length-append,
}
use neuralmesh.Arbitrum.{strip_zeros, be_bytes, uint256_be}

unfoldable pub of_be_from : ℕ → List ℕ → ℕ
of_be_from acc [] = acc
of_be_from acc (b ∷ bs) = of_be_from (acc * 256 + b) bs

-- The number that a big-endian word stands for.
unfoldable pub of_be : List ℕ → ℕ
unfolding of_be_from
of_be bs = of_be_from 0 bs

of_be_from-snoc :
    (acc b : ℕ) (bs : List ℕ) → of_be_from acc (bs ++ b ∷ []) ≡ of_be_from acc bs * 256 + b
unfolding of_be_from
of_be_from-snoc acc b [] = refl
of_be_from-snoc acc b (c ∷ bs) = of_be_from-snoc (acc * 256 + c) b bs

pub of_be-be_bytes : (w v : ℕ) → v < 256 ^ w → of_be (be_bytes w v) ≡ v
unfolding of_be be_bytes
of_be-be_bytes zero v h = omega arith
of_be-be_bytes (suc w) v h =
    let small : v / 256 < 256 ^ w = omega arith in
    omega
      (arith, of_be_from-snoc 0 (v % 256) (be_bytes w (v / 256)), of_be-be_bytes w (v / 256) small)

pub length-be_bytes : (w v : ℕ) → length (be_bytes w v) ≡ w
unfolding be_bytes
length-be_bytes zero v = refl
length-be_bytes (suc w) v =
    omega (arith, length-append (be_bytes w (v / 256)) (v % 256 ∷ []), length-be_bytes w (v / 256))

pub length-uint256_be : (v : ℕ) → length (uint256_be v) ≡ 32
unfolding uint256_be
length-uint256_be v =
    omega (arith, length-append (replicate 16 0) (be_bytes 16 v), length-be_bytes 16 v)

-- An amount of 128 bits reads back from its word of 256 bits.
pub of_be-uint256_be : (v : ℕ) → v < 2 ^ 128 → of_be (uint256_be v) ≡ v
unfolding uint256_be of_be of_be_from
of_be-uint256_be v h = of_be-be_bytes 16 v (omega arith)

pub of_be-strip_zeros : (bs : List ℕ) → of_be (strip_zeros bs) ≡ of_be bs
unfolding strip_zeros of_be of_be_from
of_be-strip_zeros [] = refl
of_be-strip_zeros (b ∷ []) = refl
of_be-strip_zeros (zero ∷ (c ∷ bs)) = of_be-strip_zeros (c ∷ bs)
of_be-strip_zeros (suc b ∷ (c ∷ bs)) = refl

pub length-strip_zeros : (bs : List ℕ) → length (strip_zeros bs) ≤ length bs
unfolding strip_zeros
length-strip_zeros [] = omega arith
length-strip_zeros (b ∷ []) = omega arith
length-strip_zeros (zero ∷ (c ∷ bs)) = omega (arith, length-strip_zeros (c ∷ bs))
length-strip_zeros (suc b ∷ (c ∷ bs)) = omega arith
