-- ===== src/Arbitrum/Oracle/Sending.antt =====
-- The transactions of the oracle, ArbitrumOracle of ledger/src/on_chain/arbitrum.rs, from the environment
-- that enables it to the receipt. An overflow of the fee wraps around, as in a release build.
use Prim.Native.String.{String, len, ◌++◌ as ◌+++◌}
use text.Mathlib.Text.{◌==◌ as str_eq}
use neuralmesh.Common.{
  ℕ, [], ◌+◌, true, ◌||◌, ◌/◌, not, ◌*◌, ◌%◌, List, ◌∷◌, Option, some, Bool, false, none, ◌++◌, ◌^◌,
  if◌then◌else◌, ltb, ◌==◌, drop, take,
}
use neuralmesh.Arbitrum.{
  Eip1559Tx, signing_payload, abi_encode_string, abi_encode_string_uint256, rlp_append_uint,
  rlp_append_bytes, rlp_encode_list,
}
use neuralmesh.Arbitrum.Oracle.{
  ◌>>=◌, Call, Library, reverted, give, gas_price, bail, amount_too_large, send_raw_tx, Value,
  get_nonce, chain_id_of_node, parse_address, wait_for_receipt, Conversion, object, ArbitrumOracle,
  no_signature, bad_key, negative_amount, or_bail,
}
use neuralmesh.Common.Text.{bytes}
use neuralmesh.Coordinator.Store.{unwrap_or}
use neuralmesh.Float.{Float}

-- Without an address there is no oracle, nor with a key that has not 64 characters.
unfoldable pub from_env : Option String → Option String → ArbitrumOracle
from_env escrow_address oracle_pk =
    let escrow_addr = unwrap_or escrow_address "" in
    let pk = unwrap_or oracle_pk "" in
    if len escrow_addr == 0 || not (len pk == 64)
    then record { oracle_pk_hex = ""; escrow_addr_hex = ""; enabled = false }
    else record { oracle_pk_hex = pk; escrow_addr_hex = escrow_addr; enabled = true }

abbrev pub checked_u128 : ℕ → Option ℕ
checked_u128 n = if ltb n (2 ^ 128) then some n else none

unfoldable pub nmc_to_wei_u128 : {R : Float} → Conversion R → R.F → Call ℕ
nmc_to_wei_u128 {R = R} C nmc =
    if R.lt nmc (R.lit 0 0)
    then bail negative_amount
    else or_bail (checked_u128 (C.whole nmc * 10 ^ 18)) amount_too_large >>= λ w.
        or_bail (checked_u128 (w + C.frac nmc)) amount_too_large

module _ (L : Library) where
  abbrev pub selector : String → List ℕ
  selector sig = take 4 (L.keccak256 (bytes sig))

  abbrev pub signing_key : ArbitrumOracle → Call (List ℕ)
  signing_key o = do
    key ← or_bail (L.hex_decode (bytes o.oracle_pk_hex)) bad_key
    if L.is_signing_key key then give key else bail bad_key

  abbrev pub signing_key_to_address : List ℕ → List ℕ
  signing_key_to_address key = drop 12 (L.keccak256 (drop 1 (L.public_point key)))

  abbrev pub signed_rlp : Eip1559Tx → List ℕ → ℕ → List ℕ
  signed_rlp t sig_bytes recid =
      let a = rlp_append_uint [] t.chain_id in
      let b = rlp_append_uint a t.nonce in
      let c = rlp_append_uint b t.max_priority_fee_per_gas in
      let d = rlp_append_uint c t.max_fee_per_gas in
      let e = rlp_append_uint d t.gas_limit in
      let f = rlp_append_bytes e t.to in
      let g = rlp_append_uint f t.value in
      let h = rlp_append_bytes g t.call_data in
      let i = rlp_append_bytes h t.access_list in
      let j = rlp_append_uint i recid in
      let k = rlp_append_bytes j (take 32 sig_bytes) in rlp_append_bytes k (drop 32 sig_bytes)

  unfoldable pub sign_and_encode : Eip1559Tx → List ℕ → Call (List ℕ)
  sign_and_encode t key = do
    sig ← or_bail (L.sign_prehash key (L.keccak256 (signing_payload t))) no_signature
    give (2 ∷ rlp_encode_list (signed_rlp t sig.0 sig.1))

  abbrev pub transaction : ℕ → ℕ → ℕ → List ℕ → List ℕ → Eip1559Tx
  transaction chain_id nonce price to_addr call_data = record {
    chain_id = chain_id;
    nonce = nonce;
    max_priority_fee_per_gas = 100000000;
    max_fee_per_gas = ((price * 3) % 2 ^ 128 / 2 + 100000000) % 2 ^ 128;
    gas_limit = 150000;
    to = to_addr;
    value = 0;
    call_data = call_data;
    access_list = [];
  }

  -- `receipt["status"].as_str().unwrap_or("0x0") == "0x1"`
  abbrev pub is_success : Value → Bool
  is_success (object (some status)) = str_eq status "0x1"
  is_success _ = false

  unfoldable pub confirm : String → Call String
  confirm tx_hash = do
    receipt ← wait_for_receipt tx_hash 30
    if is_success receipt then give tx_hash else bail reverted

  -- What the transaction is made of, from the key and the node.
  unfoldable pub prepare : ArbitrumOracle → List ℕ → Call (List ℕ)
  prepare o call_data = do
    key ← signing_key o
    nonce ← get_nonce ("0x" +++ L.hex_encode (signing_key_to_address key))
    price ← gas_price
    chain_id ← chain_id_of_node
    to_addr ← parse_address L o.escrow_addr_hex
    sign_and_encode (transaction chain_id nonce price to_addr call_data) key

  unfoldable pub send_tx : ArbitrumOracle → List ℕ → Call String
  unfolding prepare confirm
  send_tx o call_data = do raw ← prepare o call_data; tx_hash ← send_raw_tx raw; confirm tx_hash

  unfoldable pub release_escrow :
      {R : Float} → Conversion R → ArbitrumOracle → String → R.F → Call (Option String)
  unfolding send_tx nmc_to_wei_u128
  release_escrow C o job_id actual_cost_nmc = if not o.enabled then give none else do
    cost_wei ← nmc_to_wei_u128 C actual_cost_nmc
    let args = abi_encode_string_uint256 (bytes job_id) cost_wei
    tx_hash ← send_tx o (selector "releaseEscrow(string,uint256)" ++ args)
    give (some tx_hash)

  unfoldable pub cancel_escrow : ArbitrumOracle → String → Call (Option String)
  unfolding send_tx
  cancel_escrow o job_id = if not o.enabled then give none else do
    tx_hash ← send_tx o (selector "cancelEscrow(string)" ++ abi_encode_string (bytes job_id))
    give (some tx_hash)
