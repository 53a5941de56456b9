-- ===== src/Arbitrum/Oracle/Success.antt =====
-- A settlement that succeeds.
use Prim.Native.String.{String, ◌++◌ as ◌+++◌}
use mathlib.Core.Option.{some-injective}
use neuralmesh.Common.{
  some, ap, ◌∙◌, ◌≡◌, ◌∷◌, refl, arith, ℕ, List, if◌then◌else◌, ◌++◌, suc, subst, replicate, Bool,
  not, false, ◌^◌, Option, sym, ◌*◌, ◌+◌, none, true,
}
use neuralmesh.Arbitrum.{abi_encode_string_uint256}
use neuralmesh.Arbitrum.Oracle.{
  ◌>>=◌, call, done, parse_address, not_text, bail, eth_send_raw_transaction, chain_id_of_node,
  give, ArbitrumOracle, as_str, gas_price, replied, send_raw_tx, or_bail, Library, Node, get_nonce,
  bad_key, str, reverted, wait_for_receipt, eth_get_transaction_receipt, Conversion, Result, Call,
  negative_amount, amount_too_large, OracleError, eth_chain_id, eth_gas_price,
  eth_get_transaction_count,
}
use neuralmesh.Arbitrum.Oracle.Inversion.{
  result-done, as_str-some, IsRead, call-IsRead, parse_address-done, or_bail-done, if-done,
  done_injective, bind-done,
}
use neuralmesh.Arbitrum.Oracle.Once.{
  with_price, with_key, with_nonce, with_address, prepare-Spends, send_some, signing_key-Spends,
}
use neuralmesh.Arbitrum.Oracle.Requests.{read-Spends}
use neuralmesh.Arbitrum.Oracle.Sending.{
  sign_and_encode, signing_key, confirm, send_tx, prepare, transaction, signing_key_to_address,
  is_success, release_escrow, selector, nmc_to_wei_u128, checked_u128,
}
use neuralmesh.Arbitrum.Oracle.Settled.{
  IsSettled, IsSigned, sign_and_encode-done, wait_for_receipt-IsPolled,
}
use neuralmesh.Common.Text.{bytes}
use neuralmesh.Float.{Float}

module _ (L : Library) (o : ArbitrumOracle) (call_data : List ℕ) where
  pub prepare-IsSigned :
      (n : Node) {raw : List ℕ}
      → (prepare L o call_data n).0 ≡ done raw
      → IsSigned L o call_data n raw
  unfolding prepare
  prepare-IsSigned n h =
      let address = λ (key : List ℕ). "0x" +++ L.hex_encode (signing_key_to_address L key) in
      let k = bind-done (signing_key L o) (with_key L o call_data) n h in
      let d =
        bind-done (or_bail (L.hex_decode (bytes o.oracle_pk_hex)) bad_key)
          (λ key. if L.is_signing_key key then give key else bail bad_key) n k.1 in
      let read = or_bail-done (L.hex_decode (bytes o.oracle_pk_hex)) bad_key n d.1 in
      let keyed = (or_bail (L.hex_decode (bytes o.oracle_pk_hex)) bad_key n).1 in
      let valid = if-done (L.is_signing_key d.0) d.0 bad_key keyed d.2 in
      let n1 = (signing_key L o n).1 in
      let c = bind-done (get_nonce (address k.0)) (with_nonce L o call_data k.0) n1 k.2 in
      let n2 = (get_nonce (address k.0) n1).1 in
      let p = bind-done gas_price (with_price L o call_data k.0 c.0) n2 c.2 in
      let n3 = (gas_price n2).1 in
      let i = bind-done chain_id_of_node (with_address L o call_data k.0 c.0 p.0) n3 p.2 in
      let n4 = (chain_id_of_node n3).1 in
      let t = λ (to_addr : List ℕ). transaction L i.0 c.0 p.0 to_addr call_data in
      let a =
        bind-done (parse_address L o.escrow_addr_hex) (λ to_addr. sign_and_encode L (t to_addr) k.0)
          n4 i.2 in
      let n5 = (parse_address L o.escrow_addr_hex n4).1 in
      let s = sign_and_encode-done L (t a.0) k.0 n5 a.2 in
      let to_escrow = parse_address-done L o.escrow_addr_hex n4 a.1 in
      let counted = eth_get_transaction_count (address k.0) in
      let of_key = (signing_key-Spends L o n).same_node in
      let of_nonce = (read-Spends counted (2 ^ 64) n1 refl).same_node ∙ of_key in
      let of_price = (read-Spends eth_gas_price (2 ^ 128) n2 refl).same_node ∙ of_nonce in
      record {
        tx = t a.0;
        key = k.0;
        sig = s.0;
        carries = refl;
        receiver = to_escrow.0;
        receiver_length = to_escrow.1;
        no_value = refl;
        chain =
            subst (λ f. IsRead f eth_chain_id (2 ^ 64) i.0) of_price
              (call-IsRead eth_chain_id (2 ^ 64) n3 i.1);
        next_nonce =
            subst (λ f. IsRead f counted (2 ^ 64) c.0) of_key (call-IsRead counted (2 ^ 64) n1 c.1);
        decoded_key = read.0 ∙ ap some valid.1;
        signed = s.1;
        is_raw = s.2;
      }

  -- A transaction that is taken.
  send_raw_tx-done :
      (raw : List ℕ) (n : Node) {h : String}
      → (send_raw_tx raw n).0 ≡ done h
      → (n.answer n.requests (eth_send_raw_transaction raw) ≡ replied (str h))
        × ((send_raw_tx raw n).1
            ≡ record n { requests = eth_send_raw_transaction raw ∷ n.requests })
  send_raw_tx-done raw n {h = h} e =
      let c =
        bind-done (call (eth_send_raw_transaction raw)) (λ res. or_bail (as_str res) not_text) n
          e in
      let asked_node = (call (eth_send_raw_transaction raw) n).1 in
      let s = or_bail-done (as_str c.0) not_text asked_node c.2 in
      (
        result-done (n.answer n.requests (eth_send_raw_transaction raw)) c.1
            ∙ ap replied (as_str-some c.0 s.0),
        c.3 ∙ s.1,
      )

  pub send_tx-IsSettled :
      (n : Node) {h : String}
      → (send_tx L o call_data n).0 ≡ done h
      → IsSettled L o call_data n (send_tx L o call_data n).1.requests h
  unfolding send_tx confirm
  send_tx-IsSettled n {h = h} e =
      let p = bind-done (prepare L o call_data) (λ raw. send_raw_tx raw >>= confirm L) n e in
      let a = (prepare L o call_data n).1 in
      let spent = prepare-Spends L o call_data n in
      let q = bind-done (send_raw_tx p.0) (confirm L) a p.2 in
      let taken = send_raw_tx-done p.0 a q.1 in
      let b = (send_raw_tx p.0 a).1 in
      let w =
        bind-done (wait_for_receipt q.0 30)
          (λ r. if is_success L r then give q.0 else bail reverted) b q.2 in
      let polled = wait_for_receipt-IsPolled q.0 30 b w.1 in
      let ended = if-done (is_success L w.0) q.0 reverted (wait_for_receipt q.0 30 b).1 w.2 in
      let get = λ (x : String). eth_get_transaction_receipt x in
      let sent = eth_send_raw_transaction p.0 in
      let taken_by_n : n.answer a.requests sent ≡ replied (str q.0) =
        subst (λ f. f a.requests sent ≡ replied (str q.0)) spent.same_node taken.0 in
      let in_a : a.answer (replicate polled.0 (get q.0) ++ (sent ∷ a.requests)) (get q.0)
          ≡ replied w.0 =
        subst (λ z. z.answer (replicate polled.0 (get q.0) ++ z.requests) (get q.0) ≡ replied w.0)
          taken.1 polled.3 in
      let in_n : n.answer (replicate polled.0 (get q.0) ++ (sent ∷ a.requests)) (get q.0)
          ≡ replied w.0 =
        subst (λ f. f (replicate polled.0 (get q.0) ++ (sent ∷ a.requests)) (get q.0) ≡ replied w.0)
          spent.same_node in_a in
      let all : b.requests ≡ sent ∷ a.requests = ap (λ z. z.requests) taken.1 in
      let ends : (send_tx L o call_data n).1.requests
          ≡ replicate (suc polled.0) (get q.0) ++ (sent ∷ a.requests) =
        ap (λ z. z.requests) (p.3 ∙ (q.3 ∙ (w.3 ∙ ended.2)))
        ∙ (polled.2 ∙ ap (λ l. replicate (suc polled.0) (get q.0) ++ l) all) in
      subst (λ x. IsSettled L o call_data n (send_tx L o call_data n).1.requests x) ended.1
        (record {
          raw = p.0;
          is_signed = prepare-IsSigned n p.1;
          before = a.requests;
          unsent = omega (arith, spent.sends_bound);
          polls = polled.0;
          receipt = w.0;
          polls_bound = polled.1;
          taken = taken_by_n;
          answered = in_n;
          succeeded = ended.0;
          all_requests = ends;
        })

or_bail-node : {A : Type 0} (x : Option A) (e : OracleError) (n : Node) → (or_bail x e n).1 ≡ n
or_bail-node none e n = refl
or_bail-node (some x) e n = refl

-- The conversion asks nothing of the node.
nmc_to_wei-node :
    {R : Float} (C : Conversion R) (nmc : R.F) (n : Node) → (nmc_to_wei_u128 C nmc n).1 ≡ n
unfolding nmc_to_wei_u128
nmc_to_wei-node {R = R} C nmc n = on_test (R.lt nmc (R.lit 0 0))
  where
    add : ℕ → Call ℕ
    add w = or_bail (checked_u128 (w + C.frac nmc)) amount_too_large

    on_whole : (x : Option ℕ) → ((or_bail x amount_too_large >>= add) n).1 ≡ n
    on_whole none = refl
    on_whole (some w) = or_bail-node (checked_u128 (w + C.frac nmc)) amount_too_large n

    on_test :
        (b : Bool)
        → ((if b
              then bail negative_amount
              else or_bail (checked_u128 (C.whole nmc * 10 ^ 18)) amount_too_large >>= add)
            n).1
          ≡ n
    on_test true = refl
    on_test false = on_whole (checked_u128 (C.whole nmc * 10 ^ 18))

-- A release that gives a hash has converted the cost, and settled by a transaction to the escrow contract, with no
-- value, that carries the call of `releaseEscrow` with the job and that cost: it was signed under the key of the oracle, it is the only one
-- that was sent, the node gave the hash for it, and one of at most 30 answers for that hash was a receipt
-- of success.
pub release_escrow-IsSettled :
    {R : Float} (L : Library) (C : Conversion R) (o : ArbitrumOracle) (job_id : String)
    (actual_cost_nmc : R.F) (n : Node) (tx_hash : String)
    → (release_escrow L C o job_id actual_cost_nmc n).0 ≡ done (some tx_hash)
    → (cost_wei : ℕ) × ((nmc_to_wei_u128 C actual_cost_nmc n).0 ≡ done cost_wei)
      × IsSettled L o
          (selector L "releaseEscrow(string,uint256)"
            ++ abi_encode_string_uint256 (bytes job_id) cost_wei)
          n
          (release_escrow L C o job_id actual_cost_nmc n).1.requests
          tx_hash
unfolding release_escrow
release_escrow-IsSettled {R = R} L C o job_id cost n tx_hash h = on_enabled (not o.enabled) h
  where
    args : ℕ → List ℕ
    args w =
        selector L "releaseEscrow(string,uint256)" ++ abi_encode_string_uint256 (bytes job_id) w

    release : ℕ → Call (Option String)
    release w = send_some L C o job_id (args w)

    either_way : Bool → Result (Option String) × Node
    either_way b = (if b then give none else nmc_to_wei_u128 C cost >>= release) n

    on_enabled :
        (b : Bool)
        → (either_way b).0 ≡ done (some tx_hash)
        → (w : ℕ) × ((nmc_to_wei_u128 C cost n).0 ≡ done w)
          × IsSettled L o (args w) n (either_way b).1.requests tx_hash
    on_enabled true e = ground (arith, done_injective e)
    on_enabled false e =
        let c = bind-done (nmc_to_wei_u128 C cost) release n e in
        let m = (nmc_to_wei_u128 C cost n).1 in
        let t = bind-done (send_tx L o (args c.0)) (λ x. give (some x)) m c.2 in
        let same : t.0 ≡ tx_hash = some-injective t.0 tx_hash (done_injective t.2) in
        let settled : IsSettled L o (args c.0) m (send_tx L o (args c.0) m).1.requests tx_hash =
          subst (λ x. IsSettled L o (args c.0) m (send_tx L o (args c.0) m).1.requests x) same
            (send_tx-IsSettled L o (args c.0) m t.1) in
        let ends : (either_way false).1.requests ≡ (send_tx L o (args c.0) m).1.requests =
          ap (λ z. z.requests) (c.3 ∙ t.3) in
        (
          c.0,
          c.1,
          subst (λ r. IsSettled L o (args c.0) n r tx_hash) (sym ends)
              (subst (λ z. IsSettled L o (args c.0) z (send_tx L o (args c.0) m).1.requests tx_hash)
                (nmc_to_wei-node C cost n) settled),
        )
