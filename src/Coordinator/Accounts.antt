-- ===== src/Coordinator/Accounts.antt =====
-- Device-locked accounts, coordinator/src/api/rest.rs: register_account, get_account, verify_device and
-- reregister_device. The id that SHA-256 and hex make of a text is a parameter. An error of the database
-- mentions "unique" where a key is taken, and only there.
pub mod Devices
use mathlib.Core.Option
use Prim.Native.String.{String, len, ◌++◌ as ◌+++◌}
use text.Mathlib.Text.{◌==◌ as str_eq}
use neuralmesh.Common.{
  true, none, ◌||◌, ℕ, ◌&&◌, some, false, Option, Bool, not, if◌then◌else◌, ◌==◌,
}
use neuralmesh.Coordinator.Migration.{is_some}
use neuralmesh.Coordinator.Payments.{empty_credit}
use neuralmesh.Coordinator.Rows.{Store, Account, Credit}
use neuralmesh.Coordinator.Store.{
  get_now, internal_error, fail, unwrap_or, on_credits, ◌>>=◌, ◌>>◌, query, pure, fail_if, exec,
  or_fail, Db, bad_request, ignore, exec_returning, not_found,
}
use neuralmesh.Database.{RowId, first, upsert_row, scan, update_key}
use neuralmesh.Float.{Float}

pub record RegisterAccountBody : Type 0 where
  pub ecdsa_pubkey_hex : String
  pub device_fingerprint_hash : String
  pub device_label : Option String
  pub platform : Option String
  pub hardware_serial_hash : Option String

pub record VerifyDeviceBody : Type 0 where
  pub device_fingerprint_hash : String
  pub ecdsa_pubkey_hex : String

pub record ReregisterBody : Type 0 where
  pub ecdsa_pubkey_hex : String
  pub new_device_fingerprint_hash : String
  pub old_device_fingerprint_hash : String
  pub device_label : Option String

-- The JSON of a registration; `device_mismatch` has "ok": false.
pub data RegisterReply : Type 0 where
  registered : (account_id : RowId) (created_at last_seen : Option ℕ) → RegisterReply
  device_mismatch : RegisterReply

pub data VerifyReply : Type 0 where
  verified_device key_differs fingerprint_differs : VerifyReply

pub data ReregisterReply : Type 0 where
  updated : (account_id : RowId) (last_seen : Option ℕ) → ReregisterReply
  wrong_key : ReregisterReply

abbrev pub derive_account_id : (String → RowId) → String → String → RowId
derive_account_id digest_id pubkey_hex fingerprint_hash =
    digest_id (pubkey_hex +++ ("||" +++ fingerprint_hash))

-- COALESCE($2, column)
abbrev pub new_or_old : {A : Type 0} → Option A → Option A → Option A
new_or_old none b = b
new_or_old (some a) b = some a

abbrev pub is_active : Account → Bool
is_active a = unwrap_or a.active false

-- SELECT … WHERE account_id = $1 AND active = TRUE
abbrev pub if_active : Option Account → Option Account
if_active none = none
if_active (some a) = if is_active a then some a else none

abbrev pub new_account : RegisterAccountBody → RowId → ℕ → Account
new_account body account_id now = record {
  account_id = account_id;
  ecdsa_pubkey_hex = body.ecdsa_pubkey_hex;
  device_fingerprint_hash = body.device_fingerprint_hash;
  device_label = body.device_label;
  platform = some (unwrap_or body.platform "browser");
  hardware_serial_hash = body.hardware_serial_hash;
  role = some "consumer";
  active = some true;
  created_at = some now;
  last_seen = some now;
}

abbrev pub see_again : Option String → ℕ → Account → Account
see_again label now a = record a {
  last_seen = some now;
  device_label = new_or_old label a.device_label;
}

abbrev pub bind_device : ReregisterBody → ℕ → Account → Account
bind_device body now a = record a {
  device_fingerprint_hash = body.new_device_fingerprint_hash;
  last_seen = some now;
  device_label = new_or_old (body.device_label) (a.device_label);
}

module _ {R : Float} where
  -- Another account has the key.
  pub has_key : String → Store R → Bool
  unfolding scan
  has_key key s = is_some (first (scan (λ a. str_eq a.ecdsa_pubkey_hex key) s.accounts))

  -- INSERT INTO accounts … ON CONFLICT (account_id) DO UPDATE … RETURNING: `none` where the key of a new
  -- account is taken.
  abbrev pub register_row :
      RegisterAccountBody → RowId → ℕ → Option Account → Store R → Option Account × Store R
  register_row body k now none s = if has_key body.ecdsa_pubkey_hex s then (none, s) else (
    some (new_account body k now),
    record s {
      accounts = upsert_row k (new_account body k now) (see_again body.device_label now) s.accounts;
    },
  )
  register_row body k now (some a) s = (
    some (see_again body.device_label now a),
    record s { accounts = update_key k (see_again body.device_label now) s.accounts },
  )

  pub registered_row : Option Account → Db R RegisterReply
  registered_row none = pure device_mismatch
  registered_row (some a) = do
    ignore (exec (on_credits (upsert_row a.account_id (empty_credit a.account_id) (λ c. c))))
    pure (registered a.account_id a.created_at a.last_seen)

  unfoldable pub register_account : (String → RowId) → RegisterAccountBody → Db R RegisterReply
  unfolding registered_row has_key
  register_account digest_id body = do
    fail_if (len body.ecdsa_pubkey_hex == 0 || not (len body.device_fingerprint_hash == 64))
        bad_request
    let k = derive_account_id digest_id body.ecdsa_pubkey_hex body.device_fingerprint_hash
    now ← get_now
    row ← exec_returning (λ s. register_row body k now (s.accounts.row k) s)
    registered_row row

  unfoldable pub get_account : RowId → Db R (Account × Option (Credit R))
  get_account account_id = do
    row ← query (λ s. s.accounts.row account_id)
    acc ← or_fail row not_found
    bal ← query (λ s. s.credits.row account_id)
    pure (acc, bal)

  abbrev pub touch : RowId → ℕ → Store R → Option (Store R)
  touch k now s =
      some
        (record s { accounts = update_key k (λ a. record a { last_seen = some now }) s.accounts })

  pub verified : RowId → Db R VerifyReply
  verified account_id = do now ← get_now; ignore (exec (touch account_id now)); pure verified_device

  unfoldable pub verify_device : RowId → VerifyDeviceBody → Db R VerifyReply
  unfolding verified
  verify_device account_id body = do
    row ← query (λ s. if_active (s.accounts.row account_id))
    acc ← or_fail row not_found
    let pubkey_match = str_eq acc.ecdsa_pubkey_hex body.ecdsa_pubkey_hex
    let fingerprint_match = str_eq acc.device_fingerprint_hash body.device_fingerprint_hash
    (if pubkey_match && fingerprint_match
        then verified account_id
        else pure (if not pubkey_match then key_differs else fingerprint_differs))

  -- UPDATE accounts … RETURNING
  abbrev pub rebind : RowId → ReregisterBody → ℕ → Store R → Option Account × Store R
  rebind k body now s =
      let after = update_key k (bind_device body now) s.accounts in
      (after.row k, record s { accounts = after })

  pub rebound : Option Account → Db R ReregisterReply
  rebound none = fail internal_error
  rebound (some a) = pure (updated a.account_id a.last_seen)

  pub bind_new : RowId → ReregisterBody → Db R ReregisterReply
  unfolding rebound
  bind_new account_id body = do
    now ← get_now
    found ← exec_returning (rebind account_id body now)
    rebound found

  unfoldable pub reregister_device : RowId → ReregisterBody → Db R ReregisterReply
  unfolding bind_new
  reregister_device account_id body = do
    fail_if
        (not (len body.new_device_fingerprint_hash == 64)
          || not (len body.old_device_fingerprint_hash == 64))
        bad_request
    row ← query (λ s. if_active (s.accounts.row account_id))
    acc ← or_fail row not_found
    (if not (str_eq acc.ecdsa_pubkey_hex body.ecdsa_pubkey_hex)
        then pure wrong_key
        else bind_new account_id body)
