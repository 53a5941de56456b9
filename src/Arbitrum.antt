-- ===== src/Arbitrum.antt =====
-- The encodings of ledger/src/on_chain/arbitrum.rs: big-endian words, ABI arguments, RLP, and the
-- payload of an EIP-1559 transaction. A byte is a number below 256. The hash and the signature are not
-- modelled.
mod Words
mod Abi
mod Rlp
pub mod Oracle
mod Tests
use neuralmesh.Common.{
  List, ◌%◌, [], ℕ, ◌-◌, false, ◌++◌, zero, ◌/◌, suc, ◌+◌, Bool, ◌∷◌, ◌==◌, if◌then◌else◌, ltb,
  length, replicate,
}

-- `to_be_bytes` of an integer of that many bytes
pub be_bytes : ℕ → ℕ → List ℕ
be_bytes zero v = []
be_bytes (suc w) v = be_bytes w (v / 256) ++ (v % 256) ∷ []

pub uint256_be : ℕ → List ℕ
unfolding be_bytes
uint256_be val = replicate 16 0 ++ be_bytes 16 val

-- `(32 - (len % 32)) % 32` zeros
pub padding : ℕ → List ℕ
padding len = replicate ((32 - len % 32) % 32) 0

pub abi_encode_string : List ℕ → List ℕ
unfolding uint256_be padding
abi_encode_string s = uint256_be 32 ++ (uint256_be (length s) ++ (s ++ padding (length s)))

pub abi_encode_string_uint256 : List ℕ → ℕ → List ℕ
unfolding uint256_be padding
abi_encode_string_uint256 s value =
    uint256_be 64 ++ (uint256_be value ++ (uint256_be (length s) ++ (s ++ padding (length s))))

-- From the first byte that is not 0 on; all zeros leave the last one.
pub strip_zeros : List ℕ → List ℕ
strip_zeros [] = []
strip_zeros (b ∷ []) = b ∷ []
strip_zeros (zero ∷ (c ∷ bs)) = strip_zeros (c ∷ bs)
strip_zeros (suc b ∷ (c ∷ bs)) = suc b ∷ (c ∷ bs)

pub rlp_uint_bytes : ℕ → List ℕ
unfolding strip_zeros be_bytes
rlp_uint_bytes val = strip_zeros (be_bytes 8 val)

pub rlp_length_encode : ℕ → List ℕ
unfolding rlp_uint_bytes
rlp_length_encode len =
    if ltb len 56
    then (128 + len) % 256 ∷ []
    else ((183 + length (rlp_uint_bytes len)) % 256) ∷ rlp_uint_bytes len

abbrev pub is_own_encoding : List ℕ → Bool
is_own_encoding [] = false
is_own_encoding (b ∷ []) = ltb b 128
is_own_encoding (b ∷ (c ∷ bs)) = false

pub rlp_append_minimal : List ℕ → List ℕ → List ℕ
unfolding rlp_length_encode
rlp_append_minimal buf bs =
    if is_own_encoding bs then buf ++ bs else buf ++ (rlp_length_encode (length bs) ++ bs)

pub rlp_append_uint : List ℕ → ℕ → List ℕ
unfolding rlp_append_minimal strip_zeros be_bytes
rlp_append_uint buf val =
    if val == 0 then buf ++ 128 ∷ [] else rlp_append_minimal buf (strip_zeros (be_bytes 16 val))

pub rlp_append_bytes : List ℕ → List ℕ → List ℕ
unfolding rlp_length_encode
rlp_append_bytes buf [] = buf ++ 128 ∷ []
rlp_append_bytes buf (b ∷ bs) = buf ++ (rlp_length_encode (length (b ∷ bs)) ++ (b ∷ bs))

pub rlp_encode_list : List ℕ → List ℕ
unfolding rlp_uint_bytes
rlp_encode_list contents =
    let len = length contents in
    if ltb len 56
    then ((192 + len) % 256) ∷ contents
    else (((247 + length (rlp_uint_bytes len)) % 256) ∷ rlp_uint_bytes len) ++ contents

pub record Eip1559Tx : Type 0 where
  pub chain_id : ℕ
  pub nonce : ℕ
  pub max_priority_fee_per_gas : ℕ
  pub max_fee_per_gas : ℕ
  pub gas_limit : ℕ
  pub to : List ℕ
  pub value : ℕ
  pub call_data : List ℕ
  pub access_list : List ℕ

pub signing_payload : Eip1559Tx → List ℕ
unfolding rlp_append_uint rlp_append_bytes rlp_encode_list
signing_payload t =
    let a = rlp_append_uint [] t.chain_id in
    let b = rlp_append_uint a t.nonce in
    let c = rlp_append_uint b t.max_priority_fee_per_gas in
    let d = rlp_append_uint c t.max_fee_per_gas in
    let e = rlp_append_uint d t.gas_limit in
    let f = rlp_append_bytes e t.to in
    let g = rlp_append_uint f t.value in
    let h = rlp_append_bytes g t.call_data in
    let i = rlp_append_bytes h t.access_list in 2 ∷ rlp_encode_list i
