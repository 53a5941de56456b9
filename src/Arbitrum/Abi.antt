-- ===== src/Arbitrum/Abi.antt =====
-- The ABI arguments of a contract call, read back the way a contract reads them.
use neuralmesh.Common.{
  List, ℕ, ◌++◌, ◌+◌, ◌≡◌, length, drop, take, ◌^◌, ◌∙◌, ◌<◌, subst, ap, arith, take-append,
  drop-past,
}
use neuralmesh.Arbitrum.{uint256_be, abi_encode_string, abi_encode_string_uint256, padding}
use neuralmesh.Arbitrum.Words.{of_be, of_be-uint256_be, length-uint256_be}

-- The word at that offset.
pub word_at : ℕ → List ℕ → ℕ
word_at offset args = of_be (take 32 (drop offset args))

-- The string whose offset stands in the head at `slot`: its length, then its bytes.
pub string_at : ℕ → List ℕ → List ℕ
unfolding word_at
string_at slot args =
    let offset = word_at slot args in take (word_at offset args) (drop (offset + 32) args)

word_at-here : (xs ys : List ℕ) → length xs ≡ 32 → word_at 0 (xs ++ ys) ≡ of_be xs
unfolding word_at
word_at-here xs ys h =
    let whole : take 32 (xs ++ ys) ≡ xs =
      subst (λ n. take n (xs ++ ys) ≡ xs) h (take-append xs ys) in
    ap of_be whole

drop-word : (xs ys : List ℕ) (m : ℕ) → length xs ≡ 32 → drop (32 + m) (xs ++ ys) ≡ drop m ys
drop-word xs ys m h = subst (λ n. drop (n + m) (xs ++ ys) ≡ drop m ys) h (drop-past xs ys m)

word_at-past :
    (xs ys : List ℕ) (m : ℕ) → length xs ≡ 32 → word_at (32 + m) (xs ++ ys) ≡ word_at m ys
unfolding word_at
word_at-past xs ys m h = ap (λ l. of_be (take 32 l)) (drop-word xs ys m h)

-- A string that starts right after the offsets: its length, then its bytes.
tail-string :
    (s rest : List ℕ)
    → length s < 2 ^ 128
    → take
        (word_at 0 (uint256_be (length s) ++ (s ++ rest)))
        (drop 32 (uint256_be (length s) ++ (s ++ rest)))
      ≡ s
tail-string s rest h =
    rw
      (
        word_at-here (uint256_be (length s)) (s ++ rest) (length-uint256_be (length s)),
        of_be-uint256_be (length s) h,
        drop-word (uint256_be (length s)) (s ++ rest) 0 (length-uint256_be (length s)),
      )
      (take-append s rest)

-- The one string that `abi_encode_string` encodes reads back, where its length fits 128 bits.
pub string_at-encode : (s : List ℕ) → length s < 2 ^ 128 → string_at 0 (abi_encode_string s) ≡ s
unfolding string_at abi_encode_string
string_at-encode s h =
    let body = uint256_be (length s) ++ (s ++ padding (length s)) in
    let offset : word_at 0 (uint256_be 32 ++ body) ≡ 32 =
      word_at-here (uint256_be 32) body (length-uint256_be 32)
      ∙ of_be-uint256_be 32 (omega arith) in
    rw
      (
        offset,
        word_at-past (uint256_be 32) body 0 (length-uint256_be 32),
        drop-word (uint256_be 32) body 32 (length-uint256_be 32),
      )
      (tail-string s (padding (length s)) h)

-- The arguments of `releaseEscrow(string,uint256)` read back, the string and the amount, where the
-- amount and the length of the string fit 128 bits.
pub arguments-encode :
    (s : List ℕ) (v : ℕ)
    → length s < 2 ^ 128
    → v < 2 ^ 128
    → (string_at 0 (abi_encode_string_uint256 s v) ≡ s)
      × (word_at 32 (abi_encode_string_uint256 s v) ≡ v)
unfolding string_at abi_encode_string_uint256
arguments-encode s v h k =
    let body = uint256_be (length s) ++ (s ++ padding (length s)) in
    let args = uint256_be 64 ++ (uint256_be v ++ body) in
    let head = uint256_be v ++ body in
    let offset : word_at 0 args ≡ 64 =
      word_at-here (uint256_be 64) head (length-uint256_be 64)
      ∙ of_be-uint256_be 64 (omega arith) in
    (
      rw
          (
            offset,
            word_at-past (uint256_be 64) head 32 (length-uint256_be 64),
            word_at-past (uint256_be v) body 0 (length-uint256_be v),
            drop-word (uint256_be 64) head 64 (length-uint256_be 64),
            drop-word (uint256_be v) body 32 (length-uint256_be v),
          )
          (tail-string s (padding (length s)) h),
      word_at-past (uint256_be 64) head 0 (length-uint256_be 64)
          ∙ word_at-here (uint256_be v) body (length-uint256_be v)
          ∙ of_be-uint256_be v k,
    )
