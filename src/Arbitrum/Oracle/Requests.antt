-- ===== src/Arbitrum/Oracle/Requests.antt =====
-- How many requests the oracle makes of a node, and how many of them send a transaction.
use Prim.Native.String.{String}
use neuralmesh.Common.{
  some, zero, ◌∙◌, Bool, Option, ◌∷◌, ◌≡◌, refl, ◌≤◌, ℕ, none, [], List, ◌+◌, true, suc, false,
  arith, if◌then◌else◌, length, ◌==◌,
}
use neuralmesh.Arbitrum.Oracle.{
  ◌>>=◌, Result, Call, failed, call, eth_gas_price, or_bail, eth_chain_id, object, number_of,
  wait_for_receipt, Value, trim_0x, scalar, unless_null, OracleError, Node, as_str, Request,
  eth_get_transaction_receipt, from_str_radix, null, not_text, str, bind_call, bad_number,
  eth_get_transaction_count, eth_send_raw_transaction, done, Library, bad_address, parse_address,
  give, bail,
}
use neuralmesh.Common.Text.{bytes}

-- The transactions that have been sent.
abbrev pub sends : List Request → ℕ
sends [] = 0
sends (eth_send_raw_transaction raw ∷ rs) = suc (sends rs)
sends (eth_gas_price ∷ rs) = sends rs
sends (eth_chain_id ∷ rs) = sends rs
sends (eth_get_transaction_count a ∷ rs) = sends rs
sends (eth_get_transaction_receipt h ∷ rs) = sends rs

-- At most `k` requests, of which `s` send a transaction, and the node stays the same otherwise.
pub record Spends (k s : ℕ) (before after : Node) : Type 0 where
  pub requests_bound : length after.requests ≤ length before.requests + k
  pub sends_bound : sends after.requests ≤ sends before.requests + s
  pub same_node : after.answer ≡ before.answer

pub Spends-trans :
    {k l s t : ℕ} {a b c : Node} → Spends k s a b → Spends l t b c → Spends (k + l) (s + t) a c
Spends-trans p q = record {
  requests_bound = omega (arith, p.requests_bound, q.requests_bound);
  sends_bound = omega (arith, p.sends_bound, q.sends_bound);
  same_node = q.same_node ∙ p.same_node;
}

pub Spends-weaken : {k l s t : ℕ} {a b : Node} → k ≤ l → s ≤ t → Spends k s a b → Spends l t a b
Spends-weaken h g p = record {
  requests_bound = omega (arith, p.requests_bound, h);
  sends_bound = omega (arith, p.sends_bound, g);
  same_node = p.same_node;
}

pub Spends-refl : (a : Node) → Spends 0 0 a a
Spends-refl a = record { requests_bound = omega arith; sends_bound = omega arith; same_node = refl }

pub bind_call-Spends :
    {A B : Type 0} (l t : ℕ) (r : Result A) (f : A → Call B) (n : Node)
    → ((a : A) (m : Node) → Spends l t m (f a m).1)
    → Spends l t n (bind_call r f n).1
bind_call-Spends l t (done a) f n h = h a n
bind_call-Spends l t (failed e) f n h = Spends-weaken (omega arith) (omega arith) (Spends-refl n)

-- A call and then another one.
pub bind-Spends :
    {A B : Type 0} (k s l t : ℕ) (m : Call A) (f : A → Call B) (n : Node)
    → Spends k s n (m n).1
    → ((a : A) (n' : Node) → Spends l t n' (f a n').1)
    → Spends (k + l) (s + t) n ((m >>= f) n).1
bind-Spends k s l t m f n h g = Spends-trans h (bind_call-Spends l t (m n).0 f (m n).1 g)

pub or_bail-Spends :
    {A : Type 0} (o : Option A) (e : OracleError) (n : Node) → Spends 0 0 n (or_bail o e n).1
or_bail-Spends none e n = Spends-refl n
or_bail-Spends (some a) e n = Spends-refl n

pub if-Spends :
    {A : Type 0} (b : Bool) (x y : Call A) (k s : ℕ) (n : Node)
    → Spends k s n (x n).1
    → Spends k s n (y n).1
    → Spends k s n ((if b then x else y) n).1
if-Spends true x y k s n p q = p
if-Spends false x y k s n p q = q

pub number_of-Spends : (bound : ℕ) (v : Value) (n : Node) → Spends 0 0 n (number_of bound v n).1
unfolding number_of
number_of-Spends bound v n =
    bind-Spends 0 0 0 0 (or_bail (as_str v) not_text)
      (λ hex. or_bail (from_str_radix bound (trim_0x (bytes hex))) bad_number) n
      (or_bail-Spends (as_str v) not_text n)
      (λ hex m. or_bail-Spends (from_str_radix bound (trim_0x (bytes hex))) bad_number m)

-- A request that sends nothing.
pub asked :
    (r : Request) (n : Node) → sends (r ∷ n.requests) ≡ sends n.requests → Spends 1 0 n (call r n).1
asked r n h = record {
  requests_bound = omega arith;
  sends_bound = omega (arith, h);
  same_node = refl;
}

pub wait_for_receipt-Spends :
    (h : String) (k : ℕ) (n : Node) → Spends k 0 n (wait_for_receipt h k n).1
unfolding wait_for_receipt
wait_for_receipt-Spends h zero n = Spends-refl n
wait_for_receipt-Spends h (suc k) n =
    let again = wait_for_receipt h k in
    Spends-weaken (omega arith) (omega arith) (
      bind-Spends 1 0 k 0 (call (eth_get_transaction_receipt h)) (λ v. unless_null v again) n
        (asked (eth_get_transaction_receipt h) n refl)
        (λ v m. unless_null-Spends v again k m (wait_for_receipt-Spends h k m)))
  where
    unless_null-Spends :
        (v : Value) (again : Call Value) (k : ℕ) (m : Node)
        → Spends k 0 m (again m).1
        → Spends k 0 m (unless_null v again m).1
    unless_null-Spends null again k m p = p
    unless_null-Spends scalar again k m p =
        Spends-weaken (omega arith) (omega arith) (Spends-refl m)
    unless_null-Spends (str s) again k m p =
        Spends-weaken (omega arith) (omega arith) (Spends-refl m)
    unless_null-Spends (object s) again k m p =
        Spends-weaken (omega arith) (omega arith) (Spends-refl m)

-- A request that gives a number.
pub read-Spends :
    (r : Request) (bound : ℕ) (n : Node)
    → sends (r ∷ n.requests) ≡ sends n.requests
    → Spends 1 0 n ((call r >>= number_of bound) n).1
read-Spends r bound n h =
    bind-Spends 1 0 0 0 (call r) (number_of bound) n (asked r n h)
      (λ v m. number_of-Spends bound v m)

pub parse_address-Spends :
    (L : Library) (addr : String) (n : Node) → Spends 0 0 n (parse_address L addr n).1
unfolding parse_address
parse_address-Spends L addr n =
    let hex = trim_0x (bytes addr) in
    let last =
      λ (decoded : List ℕ). if length decoded == 20 then give decoded else bail bad_address in
    bind-Spends 0 0 0 0 (if length hex == 40 then give tt else bail bad_address)
      (λ u. or_bail (L.hex_decode hex) bad_address >>= last) n
      (if-Spends (length hex == 40) (give tt) (bail bad_address) 0 0 n (Spends-refl n)
        (Spends-refl n))
      (λ u m.
        bind-Spends 0 0 0 0 (or_bail (L.hex_decode hex) bad_address) last m
          (or_bail-Spends (L.hex_decode hex) bad_address m)
          (λ d m'.
            if-Spends (length d == 20) (give d) (bail bad_address) 0 0 m' (Spends-refl m')
              (Spends-refl m')))
