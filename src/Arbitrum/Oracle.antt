-- ===== src/Arbitrum/Oracle.antt =====
-- The oracle of ledger/src/on_chain/arbitrum.rs: the transaction that settles an escrow is signed, sent to
-- a node and awaited. A node is what it answers to a request after the requests before it; the hash, the
-- curve, the hex code and the conversions of a float are libraries: the parameters.
pub mod Sending
pub mod Requests
pub mod Once
pub mod Inversion
pub mod Success
pub mod Settled
pub mod Tests
use Prim.Native.String.{String}
use neuralmesh.Common.{
  ℕ, List, ◌-◌, ◌&&◌, ◌+◌, Option, ◌∷◌, ◌^◌, ◌*◌, zero, none, some, suc, Bool, [], ◌==◌,
  if◌then◌else◌, ltb, leb, length,
}
use neuralmesh.Common.Text.{bytes}
use neuralmesh.Float.{Float}
use neuralmesh.Ledger.Oracle.{answer}

-- A JSON value; of an object, the field `status` where it is a text.
pub data Value : Type 0 where
  null scalar : Value
  str : String → Value
  object : (status : Option String) → Value

-- No answer, none that parses or an error, or the result.
pub data Rpc : Type 0 where
  refused : Rpc
  replied : Value → Rpc

pub data Request : Type 0 where
  eth_gas_price eth_chain_id : Request
  eth_get_transaction_count : (account : String) → Request
  eth_send_raw_transaction : (raw : List ℕ) → Request
  eth_get_transaction_receipt : (tx_hash : String) → Request

-- `requests` has the latest one first.
pub record Node : Type 0 where
  pub answer : List Request → Request → Rpc
  pub requests : List Request

pub data OracleError : Type 0 where
  negative_amount amount_too_large bad_key no_signature rpc_error not_text bad_number : OracleError
  bad_address timed_out reverted : OracleError

pub data Result (A : Type 0) : Type 0 where
  done : A → Result A
  failed : OracleError → Result A

pub record Library : Type 0 where
  pub keccak256 : List ℕ → List ℕ
  pub hex_encode : List ℕ → String
  pub hex_decode : List ℕ → Option (List ℕ)
  -- a private key, its uncompressed public point, and a signature of 64 bytes with its recovery id
  pub is_signing_key : List ℕ → Bool
  pub public_point : List ℕ → List ℕ
  pub sign_prehash : List ℕ → List ℕ → Option (List ℕ × ℕ)

-- `x.trunc() as u128` and `(x.fract() * 1e18).round() as u128`
pub record Conversion (R : Float) : Type 0 where
  pub whole : R.F → ℕ
  pub frac : R.F → ℕ

pub record ArbitrumOracle : Type 0 where
  pub oracle_pk_hex : String
  pub escrow_addr_hex : String
  pub enabled : Bool

abbrev pub Call : Type 0 → Type 0
Call A = Node → Result A × Node

infixl 5 ◌>>=◌ ◌>>◌
abbrev pub bind_call : {A B : Type 0} → Result A → (A → Call B) → Call B
bind_call (done a) f n = f a n
bind_call (failed e) f n = (failed e, n)

abbrev pub ◌>>=◌ : {A B : Type 0} → Call A → (A → Call B) → Call B
◌>>=◌ m f n = bind_call (m n).0 f (m n).1

abbrev pub ◌>>◌ : {A B : Type 0} → Call A → Call B → Call B
m >> k = m >>= λ _. k

abbrev pub give : {A : Type 0} → A → Call A
give a n = (done a, n)

abbrev pub bail : {A : Type 0} → OracleError → Call A
bail e n = (failed e, n)

abbrev pub or_bail : {A : Type 0} → Option A → OracleError → Call A
or_bail none e n = (failed e, n)
or_bail (some a) e n = (done a, n)

abbrev pub result : Rpc → Result Value
result refused = failed rpc_error
result (replied v) = done v

abbrev pub call : Request → Call Value
call r n = (result (n.answer n.requests r), record n { requests = r ∷ n.requests })

abbrev pub as_str : Value → Option String
as_str (str s) = some s
as_str _ = none

-- `trim_start_matches("0x")`, which takes off every such prefix
unfoldable pub trim_0x : List ℕ → List ℕ
trim_0x [] = []
trim_0x (c ∷ []) = c ∷ []
trim_0x (c ∷ (d ∷ cs)) = let rest = trim_0x cs in if c == 48 && d == 120 then rest else c ∷ (d ∷ cs)

abbrev pub hex_digit : ℕ → Option ℕ
hex_digit c =
    if leb 48 c && leb c 57
    then some (c - 48)
    else if leb 97 c && leb c 102
    then some (c - 87)
    else if leb 65 c && leb c 70
    then some (c - 55)
    else none

-- The next digit, unless the number reaches the bound.
abbrev pub push_digit : ℕ → Option ℕ → Option ℕ → Option ℕ
push_digit bound (some acc) (some d) =
    if ltb (acc * 16 + d) bound then some (acc * 16 + d) else none
push_digit bound _ _ = none

unfoldable pub digits : ℕ → Option ℕ → List ℕ → Option ℕ
digits bound acc [] = acc
digits bound acc (c ∷ cs) = digits bound (push_digit bound acc (hex_digit c)) cs

-- `from_str_radix` of base 16, for an unsigned type below the bound, which takes a sign before a digit
unfoldable pub from_str_radix : ℕ → List ℕ → Option ℕ
unfolding digits
from_str_radix bound [] = none
from_str_radix bound (c ∷ []) = digits bound (some 0) (c ∷ [])
from_str_radix bound (c ∷ (d ∷ cs)) =
    if c == 43 then digits bound (some 0) (d ∷ cs) else digits bound (some 0) (c ∷ (d ∷ cs))

unfoldable pub number_of : ℕ → Value → Call ℕ
unfolding trim_0x from_str_radix
number_of bound v = do
  hex ← or_bail (as_str v) not_text
  or_bail (from_str_radix bound (trim_0x (bytes hex))) bad_number

abbrev pub get_nonce : String → Call ℕ
get_nonce account = do res ← call (eth_get_transaction_count account); number_of (2 ^ 64) res

abbrev pub gas_price : Call ℕ
gas_price = do res ← call eth_gas_price; number_of (2 ^ 128) res

abbrev pub chain_id_of_node : Call ℕ
chain_id_of_node = do res ← call eth_chain_id; number_of (2 ^ 64) res

abbrev pub send_raw_tx : List ℕ → Call String
send_raw_tx raw = do res ← call (eth_send_raw_transaction raw); or_bail (as_str res) not_text

-- The value, or another attempt where it is null.
abbrev pub unless_null : Value → Call Value → Call Value
unless_null null again = again
unless_null v again = give v

unfoldable pub wait_for_receipt : String → ℕ → Call Value
wait_for_receipt tx_hash zero = bail timed_out
wait_for_receipt tx_hash (suc attempts) =
    let again = wait_for_receipt tx_hash attempts in
    call (eth_get_transaction_receipt tx_hash) >>= λ res. unless_null res again

unfoldable pub parse_address : Library → String → Call (List ℕ)
unfolding trim_0x
parse_address L addr = do
  let hex = trim_0x (bytes addr)
  if length hex == 40 then give tt else bail bad_address
  decoded ← or_bail (L.hex_decode hex) bad_address
  if length decoded == 20 then give decoded else bail bad_address
