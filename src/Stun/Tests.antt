-- ===== src/Stun/Tests.antt =====
-- The STUN parser at small responses.
use neuralmesh.Common.{
  ◌++◌, ℕ, ◌≢◌, arith, refl, inl, some, [], ◌∷◌, ◌≡◌, none, List, ◌==◌, if◌then◌else◌, replicate,
}
use neuralmesh.Stun.{
  address, no_address, index_out_of_bounds, discover_public_endpoint, xor_mapped_address,
  parse_attributes, parse_stun_response, out_of_fuel, be32, build_stun_request,
}
use neuralmesh.Stun.Response.{
  Attribute, encode_attribute, parse_stun_response-panics, parse_stun_response-ends,
  xor_mapped_value, parse_stun_response-encode, encode_attributes,
}

abbrev header : List ℕ
header = replicate 20 0

-- 192.0.2.1:32853
abbrev ip : ℕ
ip = be32 192 0 2 1

abbrev software : Attribute
software = record { kind = 0x8022; value = 116 ∷ (101 ∷ (115 ∷ [])) }

parse_stun_response-encode_example :
    parse_stun_response (
      header
      ++ (encode_attributes (software ∷ [])
          ++ (encode_attribute
                (record { kind = xor_mapped_address; value = xor_mapped_value ip 32853 })
              ++ [])))
    ≡ address ip 32853
parse_stun_response-encode_example =
    parse_stun_response-encode header (software ∷ []) ip 32853 [] refl
      (((λ e. ground arith), (λ e. ground arith)), tt)

parse_stun_response-panics_example :
    parse_stun_response (header ++ (0 ∷ (0x20 ∷ (0 ∷ (8 ∷ []))))) ≡ index_out_of_bounds
parse_stun_response-panics_example =
    parse_stun_response-panics header xor_mapped_address 8 [] refl (inl refl) (omega arith)
      (omega arith)

parse_stun_response-ends_example : parse_stun_response header ≢ out_of_fuel
parse_stun_response-ends_example = parse_stun_response-ends header

-- A request that is sent back carries no address.
echoed : parse_stun_response (build_stun_request (replicate 12 7)) ≡ no_address
unfolding parse_stun_response parse_attributes build_stun_request
echoed = refl

second_server :
    discover_public_endpoint (λ n. if n == 2 then some (1, 2) else none) (1 ∷ (2 ∷ []))
    ≡ some (1, 2)
unfolding discover_public_endpoint
second_server = refl
