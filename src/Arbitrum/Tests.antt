-- ===== src/Arbitrum/Tests.antt =====
-- The encodings at concrete amounts and strings.
use neuralmesh.Common.{List, arith, refl, ◌≡◌, ◌∷◌, ℕ, [], drop}
use neuralmesh.Arbitrum.{
  be_bytes, Eip1559Tx, abi_encode_string_uint256, signing_payload, rlp_append_minimal,
  rlp_append_bytes, rlp_append_uint, strip_zeros, rlp_encode_list, rlp_length_encode,
}
use neuralmesh.Arbitrum.Abi.{string_at, arguments-encode, word_at}
use neuralmesh.Arbitrum.Rlp.{decode-append_uint, rlp_decode_uint}
use neuralmesh.Common.Text.{bytes}

abbrev job_id : List ℕ
job_id = bytes "job-1"

arguments-encode_example :
    (string_at 0 (abi_encode_string_uint256 job_id 1500) ≡ job_id)
    × (word_at 32 (abi_encode_string_uint256 job_id 1500) ≡ 1500)
arguments-encode_example = arguments-encode job_id 1500 (omega arith) (omega arith)

decode-append_uint_example :
    rlp_decode_uint (drop 2 (rlp_append_uint (1 ∷ (2 ∷ [])) 421614)) ≡ 421614
decode-append_uint_example = decode-append_uint (1 ∷ (2 ∷ [])) 421614 (omega arith)

chain_id_bytes : rlp_append_uint [] 421614 ≡ 131 ∷ (6 ∷ (110 ∷ (238 ∷ [])))
unfolding rlp_append_uint rlp_append_minimal rlp_length_encode strip_zeros be_bytes
chain_id_bytes = refl

-- The empty access list is written as an empty string, 0x80, not as an empty list, 0xC0.
abbrev empty_call : Eip1559Tx
empty_call = record {
  chain_id = 1;
  nonce = 0;
  max_priority_fee_per_gas = 0;
  max_fee_per_gas = 0;
  gas_limit = 0;
  to = [];
  value = 0;
  call_data = [];
  access_list = [];
}

access_list_bytes :
    signing_payload empty_call
    ≡ 2 ∷ (201 ∷ (1 ∷ (128 ∷ (128 ∷ (128 ∷ (128 ∷ (128 ∷ (128 ∷ (128 ∷ (128 ∷ []))))))))))
unfolding signing_payload rlp_append_uint rlp_append_minimal rlp_append_bytes rlp_encode_list
    rlp_length_encode strip_zeros be_bytes
access_list_bytes = refl
