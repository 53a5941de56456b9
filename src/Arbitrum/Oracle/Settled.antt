-- ===== src/Arbitrum/Oracle/Settled.antt =====
-- What a settlement that succeeds has sent, and what the node has answered.
use Prim.Native.String.{String, ◌++◌ as ◌+++◌}
use neuralmesh.Common.{
  suc, ap, ◌++◌, zero, ◌≤◌, ℕ, List, refl, ◌<◌, arith, ◌≡◌, true, ◌∷◌, some, replicate, ◌∙◌, subst,
  sym, ◌^◌, length,
}
use neuralmesh.Arbitrum.{rlp_encode_list, signing_payload, Eip1559Tx}
use neuralmesh.Arbitrum.Oracle.{
  Result, Value, Library, or_bail, replied, str, eth_get_transaction_receipt, done, give, Node,
  Request, eth_send_raw_transaction, wait_for_receipt, ArbitrumOracle, bind_call, unless_null,
  result, object, scalar, null, Rpc, refused, no_signature, trim_0x, eth_get_transaction_count,
  eth_chain_id,
}
use neuralmesh.Arbitrum.Oracle.Inversion.{
  done_injective, bind-done, failed≢done, IsRead, or_bail-done,
}
use neuralmesh.Arbitrum.Oracle.Requests.{sends}
use neuralmesh.Arbitrum.Oracle.Sending.{
  signed_rlp, is_success, sign_and_encode, signing_key_to_address,
}
use neuralmesh.Common.Text.{bytes}

-- The bytes of a transaction with the data, to the escrow's address, with no value, for the chain that the
-- node names and with the nonce that it gives for the account of the oracle's key, signed under that key.
pub record IsSigned (L : Library) (o : ArbitrumOracle) (call_data : List ℕ) (n : Node)
    (raw : List ℕ) : Type 0 where
  pub tx : Eip1559Tx
  pub key : List ℕ
  pub sig : List ℕ × ℕ
  pub carries : tx.call_data ≡ call_data
  pub receiver : L.hex_decode (trim_0x (bytes o.escrow_addr_hex)) ≡ some tx.to
  pub receiver_length : length tx.to ≡ 20
  pub no_value : tx.value ≡ 0
  pub chain : IsRead n.answer eth_chain_id (2 ^ 64) tx.chain_id
  pub next_nonce :
      IsRead n.answer
        (eth_get_transaction_count ("0x" +++ L.hex_encode (signing_key_to_address L key)))
        (2 ^ 64)
        tx.nonce
  pub decoded_key : L.hex_decode (bytes o.oracle_pk_hex) ≡ some key
  pub signed : L.sign_prehash key (L.keccak256 (signing_payload tx)) ≡ some sig
  pub is_raw : raw ≡ 2 ∷ rlp_encode_list (signed_rlp L tx sig.0 sig.1)

-- The node has taken the transaction, given its hash, and shown a receipt of success after at most 29
-- answers without one. `n` is the node before and `after` its requests in the end.
pub record IsSettled (L : Library) (o : ArbitrumOracle) (call_data : List ℕ) (n : Node)
    (after : List Request) (tx_hash : String) : Type 0 where
  pub raw : List ℕ
  pub is_signed : IsSigned L o call_data n raw
  pub before : List Request
  pub unsent : sends before ≤ sends n.requests
  pub polls : ℕ
  pub receipt : Value
  pub polls_bound : polls < 30
  pub taken : n.answer before (eth_send_raw_transaction raw) ≡ replied (str tx_hash)
  pub answered :
      n.answer
        (replicate polls (eth_get_transaction_receipt tx_hash)
          ++ (eth_send_raw_transaction raw ∷ before))
        (eth_get_transaction_receipt tx_hash)
      ≡ replied receipt
  pub succeeded : is_success L receipt ≡ true
  pub all_requests :
      after
      ≡ replicate (suc polls) (eth_get_transaction_receipt tx_hash)
        ++ (eth_send_raw_transaction raw ∷ before)

replicate-shift :
    {A : Type 0} (k : ℕ) (x : A) (xs : List A)
    → (replicate k x ++ (x ∷ xs)) ≡ x ∷ (replicate k x ++ xs)
replicate-shift zero x xs = refl
replicate-shift (suc k) x xs = ap (λ l. x ∷ l) (replicate-shift k x xs)

-- The value is the answer to one of at most `m` requests, the latest one.
abbrev pub IsPolled : String → ℕ → Node → List Request → Value → Type 0
IsPolled h m n after v =
    let get = eth_get_transaction_receipt h in
    (k : ℕ) × (k < m)
    × (after ≡ replicate (suc k) get ++ n.requests)
    × (n.answer (replicate k get ++ n.requests) get ≡ replied v)

abbrev pub next_node : Node → String → Node
next_node n h = record n { requests = eth_get_transaction_receipt h ∷ n.requests }

-- A receipt that is waited for is the answer to one of the requests.
pub wait_for_receipt-IsPolled :
    (h : String) (m : ℕ) (n : Node) {v : Value}
    → (wait_for_receipt h m n).0 ≡ done v
    → IsPolled h m n (wait_for_receipt h m n).1.requests v
unfolding wait_for_receipt
wait_for_receipt-IsPolled h zero n e = failed≢done e
wait_for_receipt-IsPolled h (suc m) n {v = v} e =
    on_answer (n.answer n.requests get) refl (λ f. wait_for_receipt-IsPolled h m (next_node n h) f)
      e
  where
    get : Request
    get = eth_get_transaction_receipt h

    next : Node
    next = next_node n h

    again : Rpc → Result Value × Node
    again a = bind_call (result a) (λ r. unless_null r (wait_for_receipt h m)) next

    on_answer :
        (a : Rpc)
        → n.answer n.requests get ≡ a
        → ((wait_for_receipt h m next).0 ≡ done v
            → IsPolled h m next (wait_for_receipt h m next).1.requests v)
        → (again a).0 ≡ done v
        → IsPolled h (suc m) n (again a).1.requests v
    on_answer refused q rec f = failed≢done f
    on_answer (replied null) q rec f =
        let r = rec f in
        (
          suc r.0,
          omega (arith, r.1),
          r.2 ∙ replicate-shift (suc r.0) get n.requests,
          subst (λ l. n.answer l get ≡ replied v) (replicate-shift r.0 get n.requests) r.3,
        )
    on_answer (replied scalar) q rec f = (0, omega arith, refl, q ∙ ap replied (done_injective f))
    on_answer (replied (str s)) q rec f = (0, omega arith, refl, q ∙ ap replied (done_injective f))
    on_answer (replied (object s)) q rec f =
        (0, omega arith, refl, q ∙ ap replied (done_injective f))

pub sign_and_encode-done :
    (L : Library) (t : Eip1559Tx) (key : List ℕ) (n : Node) {raw : List ℕ}
    → (sign_and_encode L t key n).0 ≡ done raw
    → (sig : List ℕ × ℕ) × (L.sign_prehash key (L.keccak256 (signing_payload t)) ≡ some sig)
      × (raw ≡ 2 ∷ rlp_encode_list (signed_rlp L t sig.0 sig.1))
unfolding sign_and_encode
sign_and_encode-done L t key n h =
    let prehash = L.sign_prehash key (L.keccak256 (signing_payload t)) in
    let r =
      bind-done (or_bail prehash no_signature)
        (λ s. give (2 ∷ rlp_encode_list (signed_rlp L t s.0 s.1))) n h in
    (r.0, (or_bail-done prehash no_signature n r.1).0, sym (done_injective r.2))
