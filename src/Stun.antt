-- ===== src/Stun.antt =====
-- The discovery of a public address, crates/nm-wireguard/src/nat.rs: a STUN request, the reading of the
-- response, and the servers in turn. Bytes are numbers; an index out of bounds is a panic. The exchange
-- with a server is a parameter.
pub mod Bits
pub mod Response
mod Tests
use Prim.Native.Nat.{bit_xor}
use neuralmesh.Common.{
  [], ◌+◌, ◌/◌, suc, Option, ◌∷◌, none, zero, some, ℕ, ◌*◌, List, ◌&&◌, leb, ltb, if◌then◌else◌,
  ◌==◌, length, drop,
}
use neuralmesh.Common.Text.{bytes}

-- What the parser ends with: `out_of_fuel` is no end of the code.
pub data Parsed : Type 0 where
  address : (ip port : ℕ) → Parsed
  too_short no_address index_out_of_bounds out_of_fuel : Parsed

abbrev pub magic_cookie : ℕ
magic_cookie = 0x2112_A442

abbrev pub magic_half : ℕ
magic_half = 0x2112

abbrev pub xor_mapped_address : ℕ
xor_mapped_address = 0x0020

abbrev pub mapped_address : ℕ
mapped_address = 0x0001

-- `from_be_bytes`
abbrev pub be16 : ℕ → ℕ → ℕ
be16 hi lo = hi * 256 + lo

abbrev pub be32 : ℕ → ℕ → ℕ → ℕ → ℕ
be32 a b c d = ((a * 256 + b) * 256 + c) * 256 + d

-- The last argument has the 12 random bytes.
unfoldable pub build_stun_request : List ℕ → List ℕ
build_stun_request transaction =
    0x00 ∷ (0x01 ∷ (0x00 ∷ (0x00 ∷ (0x21 ∷ (0x12 ∷ (0xA4 ∷ (0x42 ∷ transaction)))))))

-- The value of an attribute: a reserved byte, the family, the port and the address.
unfoldable pub read_xor_mapped : List ℕ → Parsed
read_xor_mapped (r ∷ (f ∷ (p ∷ (q ∷ (a ∷ (b ∷ (c ∷ (d ∷ rest)))))))) =
    address (bit_xor (be32 a b c d) magic_cookie) (bit_xor (be16 p q) magic_half)
read_xor_mapped _ = index_out_of_bounds

unfoldable pub read_mapped : List ℕ → Parsed
read_mapped (r ∷ (f ∷ (p ∷ (q ∷ (a ∷ (b ∷ (c ∷ (d ∷ rest)))))))) = address (be32 a b c d) (be16 p q)
read_mapped _ = index_out_of_bounds

-- `(attr_len + 3) & !3`
abbrev pub round_up : ℕ → ℕ
round_up n = (n + 3) / 4 * 4

-- The loop, on the bytes from `pos` on; each round takes one unit of fuel.
unfoldable pub parse_attributes : ℕ → List ℕ → Parsed
unfolding read_xor_mapped read_mapped
parse_attributes zero bytes = out_of_fuel
parse_attributes (suc n) (t ∷ (u ∷ (l ∷ (m ∷ rest)))) =
    let later = parse_attributes n (drop (round_up (be16 l m)) rest) in
    if be16 t u == xor_mapped_address && leb 8 (be16 l m)
    then read_xor_mapped rest
    else if be16 t u == mapped_address && leb 8 (be16 l m)
    then read_mapped rest
    else later
parse_attributes (suc n) _ = no_address

unfoldable pub parse_stun_response : List ℕ → Parsed
unfolding parse_attributes
parse_stun_response buf =
    if ltb (length buf) 20 then too_short else parse_attributes (suc (length buf)) (drop 20 buf)

-- The first server that gives an address; `none` where all of them fail.
unfoldable pub discover_public_endpoint :
    {Server : Type 0} → (Server → Option (ℕ × ℕ)) → List Server → Option (ℕ × ℕ)
discover_public_endpoint try_stun [] = none
discover_public_endpoint try_stun (server ∷ servers) =
    let later = discover_public_endpoint try_stun servers in
    elim (try_stun server) [ none ↦ later | some found ↦ some found ]
