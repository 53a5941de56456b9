-- ===== src/Arbitrum/Oracle/Inversion.antt =====
-- What a call has found out where it succeeds.
use Prim.Native.String.{String}
use mathlib.Core.Option.{some-injective}
use neuralmesh.Common.{
  ◌∙◌, ap, List, subst, ◌≡◌, false, none, some, ℕ, true, Bool, arith, refl, Option, ◌==◌, eqb→eq,
  if◌then◌else◌, length,
}
use neuralmesh.Arbitrum.Oracle.{
  Result, ◌>>=◌, as_str, Call, failed, call, give, from_str_radix, or_bail, object, number_of, Rpc,
  done, bad_number, replied, not_text, refused, Request, Node, OracleError, str, Library, trim_0x,
  bind_call, null, bail, parse_address, scalar, result, Value, bad_address,
}
use neuralmesh.Common.Text.{bytes}
use neuralmesh.Ledger.Oracle.{answer}

pub failed≢done : {A : Type 0} {e : OracleError} {a : A} {B : Type 0} → failed e ≡ done a → B
failed≢done h = ground (arith, h)

pub done_injective : {A : Type 0} {a b : A} → Result.done a ≡ Result.done b → a ≡ b
done_injective {a = a} h = ap (value a) h
  where
    value : {A : Type 0} → A → Result A → A
    value d (done x) = x
    value d (failed e) = d

bind_call-done :
    {A B : Type 0} (r : Result A) (f : A → Call B) (n : Node) {b : B}
    → (bind_call r f n).0 ≡ done b
    → (a : A) × (r ≡ done a) × ((f a n).0 ≡ done b) × ((bind_call r f n).1 ≡ (f a n).1)
bind_call-done (done a) f n h = (a, refl, h, refl)
bind_call-done (failed e) f n h = failed≢done h

pub bind-done :
    {A B : Type 0} (m : Call A) (f : A → Call B) (n : Node) {b : B}
    → ((m >>= f) n).0 ≡ done b
    → (a : A) × ((m n).0 ≡ done a)
      × ((f a (m n).1).0 ≡ done b)
      × (((m >>= f) n).1 ≡ (f a (m n).1).1)
bind-done m f n h = bind_call-done (m n).0 f (m n).1 h

pub or_bail-done :
    {A : Type 0} (x : Option A) (e : OracleError) (n : Node) {a : A}
    → (or_bail x e n).0 ≡ done a
    → (x ≡ some a) × ((or_bail x e n).1 ≡ n)
or_bail-done none e n h = failed≢done h
or_bail-done (some x) e n h = (ap some (done_injective h), refl)

pub if-done :
    {A : Type 0} (b : Bool) (a : A) (e : OracleError) (n : Node) {x : A}
    → ((if b then give a else bail e) n).0 ≡ done x
    → (b ≡ true) × (a ≡ x) × (((if b then give a else bail {A = A} e) n).1 ≡ n)
if-done true a e n h = (refl, done_injective h, refl)
if-done false a e n h = failed≢done h

pub result-done : (x : Rpc) {v : Value} → result x ≡ done v → x ≡ replied v
result-done refused h = failed≢done h
result-done (replied v) h = ap replied (done_injective h)

pub as_str-some : (v : Value) {s : String} → as_str v ≡ some s → v ≡ str s
as_str-some null h = ground (arith, h)
as_str-some scalar h = ground (arith, h)
as_str-some (str s) {s = s'} h = ap str (some-injective s s' h)
as_str-some (object s) h = ground (arith, h)

-- The number is read from an answer of the node to the request.
abbrev pub IsRead : (List Request → Request → Rpc) → Request → ℕ → ℕ → Type 0
IsRead answer r bound x =
    (asked : List Request) × (text : String) × (answer asked r ≡ replied (str text))
    × (from_str_radix bound (trim_0x (bytes text)) ≡ some x)

number_of-done :
    (bound : ℕ) (v : Value) (n : Node) {x : ℕ}
    → (number_of bound v n).0 ≡ done x
    → (text : String) × (v ≡ str text) × (from_str_radix bound (trim_0x (bytes text)) ≡ some x)
unfolding number_of
number_of-done bound v n h =
    let t =
      bind-done (or_bail (as_str v) not_text)
        (λ hex. or_bail (from_str_radix bound (trim_0x (bytes hex))) bad_number) n h in
    let asked = (or_bail (as_str v) not_text n).1 in
    (
      t.0,
      as_str-some v (or_bail-done (as_str v) not_text n t.1).0,
      (or_bail-done (from_str_radix bound (trim_0x (bytes t.0))) bad_number asked t.2).0,
    )

pub call-IsRead :
    (r : Request) (bound : ℕ) (n : Node) {x : ℕ}
    → ((call r >>= number_of bound) n).0 ≡ done x
    → IsRead n.answer r bound x
call-IsRead r bound n h =
    let c = bind-done (call r) (number_of bound) n h in
    let t = number_of-done bound c.0 (call r n).1 c.2 in
    (n.requests, t.0, result-done (n.answer n.requests r) c.1 ∙ ap replied t.1, t.2)

-- An address that is read has 20 bytes.
pub parse_address-done :
    (L : Library) (addr : String) (n : Node) {to_addr : List ℕ}
    → (parse_address L addr n).0 ≡ done to_addr
    → (L.hex_decode (trim_0x (bytes addr)) ≡ some to_addr) × (length to_addr ≡ 20)
unfolding parse_address
parse_address-done L addr n h =
    let hex = trim_0x (bytes addr) in
    let last = λ (d : List ℕ). if length d == 20 then give d else bail bad_address in
    let decode = or_bail (L.hex_decode hex) bad_address >>= last in
    let check = if length hex == 40 then give tt else bail bad_address in
    let c = bind-done check (λ u. decode) n h in
    let n1 = (check n).1 in
    let d = bind-done (or_bail (L.hex_decode hex) bad_address) last n1 c.2 in
    let read = or_bail-done (L.hex_decode hex) bad_address n1 d.1 in
    let n2 = (or_bail (L.hex_decode hex) bad_address n1).1 in
    let valid = if-done (length d.0 == 20) d.0 bad_address n2 d.2 in
    (read.0 ∙ ap some valid.1, subst (λ z. length z ≡ 20) valid.1 (eqb→eq (length d.0) 20 valid.0))
