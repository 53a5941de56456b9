-- ===== src/Arbitrum/Oracle/Tests.antt =====
-- A node that takes every transaction, and settlements through it.
use neuralmesh.Common.{
  suc, [], List, ℕ, some, zero, ◌+◌, ◌∷◌, ◌≤◌, ◌/◌, ◌==◌, length, ◌^◌, ◌*◌, ◌%◌,
}
use neuralmesh.Arbitrum.Oracle.{
  replied, eth_get_transaction_count, ArbitrumOracle, Request, eth_send_raw_transaction, Node,
  Conversion, null, str, eth_get_transaction_receipt, eth_chain_id, Library, Rpc, object,
  eth_gas_price,
}
use neuralmesh.Arbitrum.Oracle.Once.{release_or_cancel_once}
use neuralmesh.Arbitrum.Oracle.Requests.{sends}
use neuralmesh.Arbitrum.Oracle.Sending.{release_escrow, cancel_escrow, from_env}
use neuralmesh.Common.Int.{ℤ, negsuc, pos}
use neuralmesh.Coordinator.Sample.{fixed_point, nmc, unit}

abbrev digest : ℕ → List ℕ → List ℕ
digest zero xs = []
digest (suc n) [] = 0 ∷ digest n []
digest (suc n) (x ∷ xs) = x ∷ digest n xs

-- The keys are any 32 bytes, and the hex code of a text its first 20 or 32 bytes.
abbrev pub small_library : Library
small_library = record {
  keccak256 = λ m. digest 32 m;
  hex_encode = λ bs. "ab";
  hex_decode = λ cs. some (digest (length cs / 2) cs);
  is_signing_key = λ key. length key == 32;
  public_point = λ key. 4 ∷ digest 64 key;
  sign_prehash = λ key hash. some (digest 64 hash, 1);
}

abbrev whole_of : ℤ → ℕ
whole_of (pos n) = n / unit
whole_of (negsuc n) = 0

abbrev frac_of : ℤ → ℕ
frac_of (pos n) = n % unit * (10 ^ 18 / unit)
frac_of (negsuc n) = 0

abbrev pub small_conversion : Conversion fixed_point
small_conversion = record { whole = whole_of; frac = frac_of }

-- The receipt is there at the second request for it.
abbrev answer_of : List Request → Request → Rpc
answer_of rs (eth_get_transaction_count a) = replied (str "0x5")
answer_of rs eth_gas_price = replied (str "0x5f5e100")
answer_of rs eth_chain_id = replied (str "0x66eee")
answer_of rs (eth_send_raw_transaction raw) = replied (str "0xabc")
answer_of (eth_get_transaction_receipt g ∷ rs) (eth_get_transaction_receipt h) =
    replied (object (some "0x1"))
answer_of rs (eth_get_transaction_receipt h) = replied null

abbrev pub node : Node
node = record { answer = answer_of; requests = [] }

abbrev pub oracle : ArbitrumOracle
oracle =
    from_env (some "0x00112233445566778899aabbccddeeff00112233")
      (some "00112233445566778899aabbccddeeff00112233445566778899aabbccddeeff")

release_or_cancel_once_example :
    let released = (release_escrow small_library small_conversion oracle "job-1" (nmc 2) node).1 in
    let cancelled = (cancel_escrow small_library oracle "job-1" node).1 in
    (length released.requests ≤ length node.requests + 34)
    × (sends released.requests ≤ sends node.requests + 1)
    × (length cancelled.requests ≤ length node.requests + 34)
    × (sends cancelled.requests ≤ sends node.requests + 1)
release_or_cancel_once_example =
    release_or_cancel_once small_library small_conversion oracle "job-1" (nmc 2) node
