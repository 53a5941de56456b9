-- ===== src/Arbitrum/Oracle/Once.antt =====
-- The oracle sends at most one transaction for each call of it.
use Prim.Native.String.{String, ◌++◌ as ◌+++◌}
use neuralmesh.Common.{
  ◌∷◌, arith, ◌^◌, ℕ, List, ◌+◌, refl, ◌≤◌, if◌then◌else◌, length, ◌*◌, not, Option, some, none,
  ◌++◌,
}
use neuralmesh.Arbitrum.{
  rlp_encode_list, signing_payload, Eip1559Tx, abi_encode_string, abi_encode_string_uint256,
}
use neuralmesh.Arbitrum.Oracle.{
  ◌>>=◌, Call, call, Node, give, chain_id_of_node, or_bail, ArbitrumOracle, reverted, bail, as_str,
  gas_price, eth_gas_price, get_nonce, send_raw_tx, eth_send_raw_transaction, parse_address,
  eth_chain_id, bad_key, Library, Conversion, eth_get_transaction_count, no_signature,
  wait_for_receipt, not_text, amount_too_large, negative_amount,
}
use neuralmesh.Arbitrum.Oracle.Requests.{
  sends, Spends-refl, or_bail-Spends, if-Spends, parse_address-Spends, Spends, bind-Spends,
  wait_for_receipt-Spends, read-Spends, Spends-weaken,
}
use neuralmesh.Arbitrum.Oracle.Sending.{
  release_escrow, is_success, confirm, signing_key_to_address, signing_key, sign_and_encode,
  send_tx, signed_rlp, transaction, prepare, cancel_escrow, selector, checked_u128, nmc_to_wei_u128,
}
use neuralmesh.Common.Text.{bytes}
use neuralmesh.Float.{Float}

pub signing_key-Spends :
    (L : Library) (o : ArbitrumOracle) (n : Node) → Spends 0 0 n (signing_key L o n).1
signing_key-Spends L o n =
    let key = L.hex_decode (bytes o.oracle_pk_hex) in
    bind-Spends 0 0 0 0 (or_bail key bad_key)
      (λ k. if L.is_signing_key k then give k else bail bad_key) n (or_bail-Spends key bad_key n)
      (λ k m.
        if-Spends (L.is_signing_key k) (give k) (bail bad_key) 0 0 m (Spends-refl m)
          (Spends-refl m))

sign_and_encode-Spends :
    (L : Library) (t : Eip1559Tx) (key : List ℕ) (n : Node)
    → Spends 0 0 n (sign_and_encode L t key n).1
unfolding sign_and_encode
sign_and_encode-Spends L t key n =
    let sig = L.sign_prehash key (L.keccak256 (signing_payload t)) in
    bind-Spends 0 0 0 0 (or_bail sig no_signature)
      (λ s. give (2 ∷ rlp_encode_list (signed_rlp L t s.0 s.1))) n
      (or_bail-Spends sig no_signature n) (λ s m. Spends-refl m)

module _ (L : Library) (o : ArbitrumOracle) (call_data : List ℕ) where
  abbrev pub with_address : List ℕ → ℕ → ℕ → ℕ → Call (List ℕ)
  with_address key nonce price chain_id = do
    to_addr ← parse_address L o.escrow_addr_hex
    sign_and_encode L (transaction L chain_id nonce price to_addr call_data) key

  abbrev pub with_price : List ℕ → ℕ → ℕ → Call (List ℕ)
  with_price key nonce price = do chain_id ← chain_id_of_node; with_address key nonce price chain_id

  abbrev pub with_nonce : List ℕ → ℕ → Call (List ℕ)
  with_nonce key nonce = do price ← gas_price; with_price key nonce price

  abbrev pub with_key : List ℕ → Call (List ℕ)
  with_key key = do
    nonce ← get_nonce ("0x" +++ L.hex_encode (signing_key_to_address L key))
    with_nonce key nonce

  pub prepare-Spends : (n : Node) → Spends 3 0 n (prepare L o call_data n).1
  unfolding prepare
  prepare-Spends n =
      bind-Spends 0 0 3 0 (signing_key L o) with_key n (signing_key-Spends L o n) (λ key a.
        bind-Spends 1 0 2 0 (get_nonce ("0x" +++ L.hex_encode (signing_key_to_address L key)))
          (with_nonce key) a
          (read-Spends
            (eth_get_transaction_count ("0x" +++ L.hex_encode (signing_key_to_address L key)))
            (2 ^ 64) a refl)
          (λ nonce b.
            bind-Spends 1 0 1 0 gas_price (with_price key nonce) b
              (read-Spends eth_gas_price (2 ^ 128) b refl)
              (λ price c.
                bind-Spends 1 0 0 0 chain_id_of_node (with_address key nonce price) c
                  (read-Spends eth_chain_id (2 ^ 64) c refl)
                  (λ chain_id d.
                    bind-Spends 0 0 0 0 (parse_address L o.escrow_addr_hex)
                      (λ to_addr.
                        sign_and_encode L (transaction L chain_id nonce price to_addr call_data)
                          key)
                      d (parse_address-Spends L o.escrow_addr_hex d)
                      (λ to_addr e.
                        sign_and_encode-Spends L
                          (transaction L chain_id nonce price to_addr call_data) key e)))))

  pub confirm-Spends : (h : String) (n : Node) → Spends 30 0 n (confirm L h n).1
  unfolding confirm
  confirm-Spends h n =
      bind-Spends 30 0 0 0 (wait_for_receipt h 30)
        (λ r. if is_success L r then give h else bail reverted) n (wait_for_receipt-Spends h 30 n)
        (λ r m.
          if-Spends (is_success L r) (give h) (bail reverted) 0 0 m (Spends-refl m) (Spends-refl m))

  pub send_raw_tx-Spends : (raw : List ℕ) (n : Node) → Spends 1 1 n (send_raw_tx raw n).1
  send_raw_tx-Spends raw n =
      bind-Spends 1 1 0 0 (call (eth_send_raw_transaction raw))
        (λ res. or_bail (as_str res) not_text) n
        (record { requests_bound = omega arith; sends_bound = omega arith; same_node = refl })
        (λ v m. or_bail-Spends (as_str v) not_text m)

  pub send_tx-Spends : (n : Node) → Spends 34 1 n (send_tx L o call_data n).1
  unfolding send_tx
  send_tx-Spends n =
      bind-Spends 3 0 31 1 (prepare L o call_data) (λ raw. send_raw_tx raw >>= confirm L) n
        (prepare-Spends n)
        (λ raw a.
          bind-Spends 1 1 30 0 (send_raw_tx raw) (confirm L) a (send_raw_tx-Spends raw a)
            (λ h b. confirm-Spends h b))

module _ {R : Float} (L : Library) (C : Conversion R) (o : ArbitrumOracle) (job_id : String) where
  pub nmc_to_wei-Spends : (nmc : R.F) (n : Node) → Spends 0 0 n (nmc_to_wei_u128 C nmc n).1
  unfolding nmc_to_wei_u128
  nmc_to_wei-Spends nmc n =
      let add = λ (w : ℕ). or_bail (checked_u128 (w + C.frac nmc)) amount_too_large in
      if-Spends (R.lt nmc (R.lit 0 0)) (bail negative_amount)
        (or_bail (checked_u128 (C.whole nmc * 10 ^ 18)) amount_too_large >>= add) 0 0 n
        (Spends-refl n)
        (bind-Spends 0 0 0 0 (or_bail (checked_u128 (C.whole nmc * 10 ^ 18)) amount_too_large) add n
          (or_bail-Spends (checked_u128 (C.whole nmc * 10 ^ 18)) amount_too_large n)
          (λ w m. or_bail-Spends (checked_u128 (w + C.frac nmc)) amount_too_large m))

  abbrev pub send_some : List ℕ → Call (Option String)
  send_some call_data = do tx_hash ← send_tx L o call_data; give (some tx_hash)

  send_some-Spends : (call_data : List ℕ) (n : Node) → Spends 34 1 n (send_some call_data n).1
  send_some-Spends call_data n =
      bind-Spends 34 1 0 0 (send_tx L o call_data) (λ h. give (some h)) n
        (send_tx-Spends L o call_data n) (λ h m. Spends-refl m)

  pub release_escrow-Spends :
      (cost : R.F) (n : Node) → Spends 34 1 n (release_escrow L C o job_id cost n).1
  unfolding release_escrow
  release_escrow-Spends cost n =
      let release = λ (w : ℕ). send_some (
        selector L "releaseEscrow(string,uint256)" ++ abi_encode_string_uint256 (bytes job_id) w) in
      if-Spends (not o.enabled) (give none) (nmc_to_wei_u128 C cost >>= release) 34 1 n
        (Spends-weaken (omega arith) (omega arith) (Spends-refl n))
        (bind-Spends 0 0 34 1 (nmc_to_wei_u128 C cost) release n (nmc_to_wei-Spends cost n) (λ w m.
          send_some-Spends
            (selector L "releaseEscrow(string,uint256)"
              ++ abi_encode_string_uint256 (bytes job_id) w)
            m))

  pub cancel_escrow-Spends : (n : Node) → Spends 34 1 n (cancel_escrow L o job_id n).1
  unfolding cancel_escrow
  cancel_escrow-Spends n =
      let call_data = selector L "cancelEscrow(string)" ++ abi_encode_string (bytes job_id) in
      if-Spends (not o.enabled) (give none) (send_some call_data) 34 1 n
        (Spends-weaken (omega arith) (omega arith) (Spends-refl n)) (send_some-Spends call_data n)

-- Whatever a node answers, a release and a cancellation end after at most 34 requests of it, of which at
-- most one sends a transaction.
pub release_or_cancel_once :
    {R : Float} (L : Library) (C : Conversion R) (o : ArbitrumOracle) (job_id : String)
    (actual_cost_nmc : R.F) (n : Node)
    → let released = (release_escrow L C o job_id actual_cost_nmc n).1 in
      let cancelled = (cancel_escrow L o job_id n).1 in
      (length released.requests ≤ length n.requests + 34)
      × (sends released.requests ≤ sends n.requests + 1)
      × (length cancelled.requests ≤ length n.requests + 34)
      × (sends cancelled.requests ≤ sends n.requests + 1)
release_or_cancel_once L C o job_id cost n =
    let r = release_escrow-Spends L C o job_id cost n in
    let c = cancel_escrow-Spends L C o job_id n in
    (r.requests_bound, r.sends_bound, c.requests_bound, c.sends_bound)
