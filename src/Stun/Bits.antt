-- ===== src/Stun/Bits.antt =====
-- Exclusive or twice with the same number, for numbers of any width.
use Prim.Native.Nat.{bit_xor, bit_xor-bitwise, digits, differ}
use neuralmesh.Common.{◌∙◌, ◌≤◌, ◌/◌, suc, ap, arith, zero, ℕ, ◌≡◌, refl, ◌<◌, sym, ◌%◌}

abbrev xor_digits : ℕ → ℕ → ℕ → ℕ
xor_digits n a b = digits (λ b. b) differ n a b

differ_self : (x : ℕ) → differ x x ≡ 0
differ_self zero = refl
differ_self (suc x) = differ_self x

differ_zero : (x y : ℕ) → differ x y ≡ 0 → x ≡ y
differ_zero zero y e = sym e
differ_zero (suc x) zero e = e
differ_zero (suc x) (suc y) e = ap suc (differ_zero x y e)

-- On two digits.
differ_twice : (x y : ℕ) → x < 2 → y < 2 → (differ x y < 2) × (differ (differ x y) y ≡ x)
differ_twice zero y p q = (q, differ_self y)
differ_twice (suc zero) zero p q = (p, refl)
differ_twice (suc zero) (suc zero) p q = (omega arith, refl)
differ_twice (suc zero) (suc (suc y)) p q = absurd (omega arith)
differ_twice (suc (suc x)) y p q = absurd (omega arith)

xor_digits_self : (n b : ℕ) → b ≤ n → xor_digits n b b ≡ 0
xor_digits_self zero zero h = refl
xor_digits_self zero (suc b) h = absurd (omega arith)
xor_digits_self (suc n) zero h = refl
xor_digits_self (suc n) (suc b) h =
    omega (arith, xor_digits_self n (suc b / 2) (omega arith), differ_self (suc b % 2))

-- Where the first number has run out, the second one is the result.
xor_digits_zero : (n b : ℕ) → xor_digits n 0 b ≡ b
xor_digits_zero zero b = refl
xor_digits_zero (suc n) b = refl

xor_digits_twice : (n m a b r : ℕ) → a ≤ n → r ≤ m → r ≡ xor_digits n a b → xor_digits m r b ≡ a
xor_digits_twice n m zero b r p q e =
    let same : r ≡ b = e ∙ xor_digits_zero n b in
    rw same (xor_digits_self m b (omega (arith, q, same)))
xor_digits_twice zero m (suc a) b r p q e = absurd (omega arith)
xor_digits_twice (suc n) m (suc a) b zero p q e =
    let half : 0 ≡ xor_digits n (suc a / 2) (b / 2) = omega (arith, e) in
    let low = differ_zero (suc a % 2) (b % 2) (omega (arith, e)) in
    let high = xor_digits_twice n 0 (suc a / 2) (b / 2) 0 (omega arith) (omega arith) half in
    xor_digits_zero m b ∙ omega (arith, low, high)
xor_digits_twice (suc n) zero (suc a) b (suc r) p q e = absurd (omega arith)
xor_digits_twice (suc n) (suc m) (suc a) b (suc r) p q e =
    let digit = differ_twice (suc a % 2) (b % 2) (omega arith) (omega arith) in
    let half : suc r / 2 ≡ xor_digits n (suc a / 2) (b / 2) = omega (arith, e, digit.0) in
    let low : suc r % 2 ≡ differ (suc a % 2) (b % 2) = omega (arith, e, digit.0) in
    let high =
      xor_digits_twice n m (suc a / 2) (b / 2) (suc r / 2) (omega arith) (omega arith) half in
    let last : differ (suc r % 2) (b % 2) ≡ suc a % 2 = rw low digit.1 in omega (arith, high, last)

pub xor_twice : (a b : ℕ) → bit_xor (bit_xor a b) b ≡ a
xor_twice a b =
    let r = bit_xor a b in
    bit_xor-bitwise r b
    ∙ xor_digits_twice a r a b r (omega arith) (omega arith) (bit_xor-bitwise a b)
