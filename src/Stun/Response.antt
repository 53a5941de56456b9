-- ===== src/Stun/Response.antt =====
-- What the parser of STUN responses does with every buffer, and with a response that a server writes.
use Prim.Native.Nat.{bit_xor}
use mathlib.Core.List.{append_assoc}
use neuralmesh.Common.{
  ◌∷◌, ◌%◌, Bool, suc, true, ◌-◌, zero, List, ◌≢◌, ◌<◌, refl, ◌≡◌, arith, ℕ, false, [], ◌++◌, ◌/◌,
  eqb_ne, if◌then◌else◌, ltb, length, length-drop, replicate, drop, ◌+◌, ◌≤◌, ◌⊎◌, length-append,
  drop-past, length-replicate, All, ap, ◌∙◌, inl, inr, leb,
}
use neuralmesh.Common.Text.{bytes}
use neuralmesh.Stun.{
  be32, magic_cookie, round_up, out_of_fuel, mapped_address, parse_attributes, Parsed,
  read_xor_mapped, xor_mapped_address, magic_half, be16, parse_stun_response, read_mapped,
  index_out_of_bounds, address,
}
use neuralmesh.Stun.Bits.{xor_twice}

later_ends :
    (b : Bool) (o p : Parsed)
    → o ≢ out_of_fuel
    → p ≢ out_of_fuel
    → (if b then o else p) ≢ out_of_fuel
later_ends true o p h k = h
later_ends false o p h k = k

read_xor_mapped-ends : (bytes : List ℕ) → read_xor_mapped bytes ≢ out_of_fuel
unfolding read_xor_mapped
read_xor_mapped-ends bytes = ground arith

read_mapped-ends : (bytes : List ℕ) → read_mapped bytes ≢ out_of_fuel
unfolding read_mapped
read_mapped-ends bytes = ground arith

parse_attributes-ends :
    (n : ℕ) (bytes : List ℕ) → length bytes < n → parse_attributes n bytes ≢ out_of_fuel
unfolding parse_attributes
parse_attributes-ends zero bytes h = absurd (omega arith)
parse_attributes-ends (suc n) [] h = λ e. ground arith
parse_attributes-ends (suc n) (t ∷ []) h = λ e. ground arith
parse_attributes-ends (suc n) (t ∷ (u ∷ [])) h = λ e. ground arith
parse_attributes-ends (suc n) (t ∷ (u ∷ (l ∷ []))) h = λ e. ground arith
parse_attributes-ends (suc n) (t ∷ (u ∷ (l ∷ (m ∷ rest)))) h =
    let skip = round_up (be16 l m) in
    let shorter = length-drop skip rest in
    later_ends _ _ _ (read_xor_mapped-ends rest) (
      later_ends _ _ _ (read_mapped-ends rest)
        (parse_attributes-ends n (drop skip rest) (omega (arith, shorter))))

-- The loop ends on every buffer: the fuel, one more than the length, is never used up.
pub parse_stun_response-ends : (buf : List ℕ) → parse_stun_response buf ≢ out_of_fuel
unfolding parse_stun_response
parse_stun_response-ends buf =
    later_ends (ltb (length buf) 20) _ _ (λ e. ground arith)
      (parse_attributes-ends (suc (length buf)) (drop 20 buf) (omega (arith, length-drop 20 buf)))

-- An attribute as RFC 5389 has a server write it: the value is padded to a multiple of four bytes.
pub record Attribute : Type 0 where
  pub kind : ℕ
  pub value : List ℕ

abbrev pub pad_bytes : ℕ → List ℕ
pad_bytes n = replicate ((4 - n % 4) % 4) 0

pub encode_attribute : Attribute → List ℕ
encode_attribute a =
    let n = length a.value in
    a.kind / 256 ∷ (a.kind % 256 ∷ (n / 256 ∷ (n % 256 ∷ (a.value ++ pad_bytes n))))

pub encode_attributes : List Attribute → List ℕ
unfolding encode_attribute
encode_attributes [] = []
encode_attributes (a ∷ rest) = encode_attribute a ++ encode_attributes rest

-- The value of XOR-MAPPED-ADDRESS, RFC 5389.
pub xor_mapped_value : ℕ → ℕ → List ℕ
xor_mapped_value ip port =
    let p = bit_xor port magic_half in
    let x = bit_xor ip magic_cookie in
    0
    ∷ (1
        ∷ (p / 256
            ∷ (p % 256 ∷ (x / 16777216 ∷ (x / 65536 % 256 ∷ (x / 256 % 256 ∷ (x % 256 ∷ [])))))))

-- An attribute that the parser skips.
abbrev pub IsOther : Attribute → Type 0
IsOther a = (a.kind ≢ xor_mapped_address) × (a.kind ≢ mapped_address)

be16-split : (n : ℕ) → be16 (n / 256) (n % 256) ≡ n
be16-split n = omega arith

be32-split : (x : ℕ) → be32 (x / 16777216) (x / 65536 % 256) (x / 256 % 256) (x % 256) ≡ x
be32-split x = omega arith

drop-pad_bytes :
    (value rest : List ℕ)
    → drop (round_up (length value)) ((value ++ pad_bytes (length value)) ++ rest) ≡ rest
drop-pad_bytes value rest =
    let pad = pad_bytes (length value) in
    let size : round_up (length value) ≡ length (value ++ pad) + 0 =
      omega
        (arith, length-append value pad, length-replicate {A = ℕ} ((4 - length value % 4) % 4) 0) in
    ap (λ k. drop k ((value ++ pad) ++ rest)) size ∙ drop-past (value ++ pad) rest 0

skip :
    (n : ℕ) (a : Attribute) (rest : List ℕ)
    → IsOther a
    → parse_attributes (suc n) (encode_attribute a ++ rest) ≡ parse_attributes n rest
unfolding parse_attributes encode_attribute
skip n a rest (ne, ne') =
    rw
      (
        be16-split a.kind,
        be16-split (length a.value),
        eqb_ne a.kind xor_mapped_address ne,
        eqb_ne a.kind mapped_address ne',
        drop-pad_bytes a.value rest,
      )
      refl

encode_attribute-long : (a : Attribute) → 4 ≤ length (encode_attribute a)
unfolding encode_attribute
encode_attribute-long a = omega arith

read_address :
    (n ip port : ℕ) (rest : List ℕ)
    → parse_attributes (suc n) (
        encode_attribute (record { kind = xor_mapped_address; value = xor_mapped_value ip port })
        ++ rest)
      ≡ address ip port
unfolding parse_attributes encode_attribute xor_mapped_value read_xor_mapped
read_address n ip port rest =
    let p = bit_xor port magic_half in
    let x = bit_xor ip magic_cookie in
    rw (be16-split p, be32-split x, xor_twice port magic_half, xor_twice ip magic_cookie) refl

skip_others :
    (n : ℕ) (others : List Attribute) (ip port : ℕ) (rest : List ℕ)
    → All IsOther others
    → let answer =
        encode_attribute (record { kind = xor_mapped_address; value = xor_mapped_value ip port }) in
      length (encode_attributes others ++ (answer ++ rest)) < n
      → parse_attributes n (encode_attributes others ++ (answer ++ rest)) ≡ address ip port
unfolding encode_attributes
skip_others zero others ip port rest all h = absurd (omega arith)
skip_others (suc n) [] ip port rest all h = read_address n ip port rest
skip_others (suc n) (a ∷ others) ip port rest (skipped, all) h =
    let answer =
      encode_attribute (record { kind = xor_mapped_address; value = xor_mapped_value ip port }) in
    let tail = encode_attributes others ++ (answer ++ rest) in
    let joined : encode_attributes (a ∷ others) ++ (answer ++ rest) ≡ encode_attribute a ++ tail =
      append_assoc (encode_attribute a) (encode_attributes others) (answer ++ rest) in
    let size = ap length joined in
    let total = length-append (encode_attribute a) tail in
    rw joined (
      skip n a tail skipped
      ∙ skip_others n others ip port rest all
          (omega (arith, h, size, total, encode_attribute-long a)))

after_header :
    (header bytes : List ℕ)
    → length header ≡ 20
    → parse_stun_response (header ++ bytes)
      ≡ parse_attributes (suc (length (header ++ bytes))) bytes
unfolding parse_stun_response
after_header header bytes h =
    let size = length-append header bytes in
    let enough : ltb (length (header ++ bytes)) 20 ≡ false = ground (arith, size) in
    let start : 20 ≡ length header + 0 = omega (arith, h) in
    rw (enough, start)
      (ap (parse_attributes (suc (length (header ++ bytes)))) (drop-past header bytes 0))

-- A response that a server writes is read as the address it carries: 20 bytes of header, attributes of
-- any lengths and any kinds but the two addresses, the XOR-MAPPED-ADDRESS with the address and the port, and anything after.
pub parse_stun_response-encode :
    (header : List ℕ) (others : List Attribute) (ip port : ℕ) (rest : List ℕ)
    → length header ≡ 20
    → All IsOther others
    → let answer =
        encode_attribute (record { kind = xor_mapped_address; value = xor_mapped_value ip port }) in
      parse_stun_response (header ++ (encode_attributes others ++ (answer ++ rest)))
      ≡ address ip port
parse_stun_response-encode header others ip port rest h all =
    let answer =
      encode_attribute (record { kind = xor_mapped_address; value = xor_mapped_value ip port }) in
    let bytes = encode_attributes others ++ (answer ++ rest) in
    after_header header bytes h
    ∙ skip_others (suc (length (header ++ bytes))) others ip port rest all
        (omega (arith, length-append header bytes))

read_xor_mapped-short :
    (bytes : List ℕ) → length bytes < 8 → read_xor_mapped bytes ≡ index_out_of_bounds
unfolding read_xor_mapped
read_xor_mapped-short bytes h = ground arith

read_mapped-short : (bytes : List ℕ) → length bytes < 8 → read_mapped bytes ≡ index_out_of_bounds
unfolding read_mapped
read_mapped-short bytes h = ground arith

short_attribute :
    (n kind size : ℕ) (value : List ℕ)
    → (kind ≡ xor_mapped_address) ⊎ (kind ≡ mapped_address)
    → leb 8 size ≡ true
    → length value < 8
    → parse_attributes (suc n) (kind / 256 ∷ (kind % 256 ∷ (size / 256 ∷ (size % 256 ∷ value))))
      ≡ index_out_of_bounds
unfolding parse_attributes
short_attribute n kind size value (inl e) long short =
    rw (e, be16-split size, long) (read_xor_mapped-short value short)
short_attribute n kind size value (inr e) long short =
    rw (e, be16-split size, long) (read_mapped-short value short)

-- A response whose address attribute claims at least eight bytes but has fewer makes the parser index out
-- of bounds, which panics.
pub parse_stun_response-panics :
    (header : List ℕ) (kind size : ℕ) (value : List ℕ)
    → length header ≡ 20
    → (kind ≡ xor_mapped_address) ⊎ (kind ≡ mapped_address)
    → 8 ≤ size
    → length value < 8
    → parse_stun_response
        (header ++ (kind / 256 ∷ (kind % 256 ∷ (size / 256 ∷ (size % 256 ∷ value)))))
      ≡ index_out_of_bounds
parse_stun_response-panics header kind size value h which long short =
    after_header header _ h ∙ short_attribute _ kind size value which (ground arith) short
