-- ===== src/Coordinator/Kyc.antt =====
-- The KYC records, coordinator/src/api/rest.rs: get_kyc and submit_kyc. The hash of an id number is a
-- parameter; a country whose first two bytes are not whole characters panics: `none`.
pub mod Approval
use Prim.Native.String.{String, len}
use text.Mathlib.Text.{◌==◌ as str_eq, get?}
use neuralmesh.Common.{not, ◌||◌, none, Option, some, ℕ, min, Bool, false, ltb, ◌==◌, if◌then◌else◌}
use neuralmesh.Coordinator.Migration.{is_some}
use neuralmesh.Coordinator.Rows.{KycRecord, Store}
use neuralmesh.Coordinator.Store.{
  ◌>>=◌, pure, is_null, ◌>>◌, Db, get_now, fail_if, exec, query, bad_request,
}
use neuralmesh.Database.{upsert_row, RowId}
use neuralmesh.Float.{Float}

pub record KycSubmitBody : Type 0 where
  pub account_id : RowId
  pub full_name : String
  pub id_type : String
  pub id_number : String
  pub country : String

pub data KycStatus : Type 0 where
  not_submitted rejected approved pending : KycStatus

-- The JSON of get_kyc; `record_of` is absent where nothing was submitted.
pub record KycReply (R : Float) : Type 0 where
  pub status : KycStatus
  pub compliance_level : ℕ
  pub record_of : Option (KycRecord R)

-- CHECK (id_type IN …)
abbrev pub is_id_type : String → Bool
is_id_type s = str_eq s "mykad" || str_eq s "passport" || str_eq s "nric" || str_eq s "other"

module _ {R : Float} where
  abbrev pub kyc_status : KycRecord R → KycStatus
  kyc_status k =
      if k.archived then rejected else if is_some k.verified_at then approved else pending

  abbrev pub kyc_reply : Option (KycRecord R) → KycReply R
  kyc_reply none = record { status = not_submitted; compliance_level = 0; record_of = none }
  kyc_reply (some k) = record {
    status = kyc_status k;
    compliance_level = k.kyc_level;
    record_of = some k;
  }

  unfoldable pub get_kyc : RowId → Db R (KycReply R)
  get_kyc account_id = do kyc ← query (λ s. s.kyc_records.row account_id); pure (kyc_reply kyc)

  abbrev pub new_kyc : KycSubmitBody → String → String → ℕ → KycRecord R
  new_kyc body id_hash country_code now = record {
    account_id = body.account_id;
    country_code = country_code;
    full_name = body.full_name;
    id_type = body.id_type;
    id_number_hash = id_hash;
    kyc_level = 1;
    annual_limit_myr = R.lit 50000 1;
    submitted_at = now;
    verified_at = none;
    archived = false;
  }

  -- ON CONFLICT (account_id) DO UPDATE
  abbrev pub resubmit : KycSubmitBody → String → String → ℕ → KycRecord R → KycRecord R
  resubmit body id_hash country_code now k = record k {
    full_name = body.full_name;
    id_type = body.id_type;
    id_number_hash = id_hash;
    country_code = country_code;
    submitted_at = now;
    archived = false;
  }

  -- The account must exist, and the type of the id be one of four.
  abbrev pub upsert_kyc : KycSubmitBody → String → String → ℕ → Store R → Option (Store R)
  upsert_kyc body id_hash country_code now s =
      if is_null (s.accounts.row body.account_id) || not (is_id_type body.id_type)
      then none
      else some (record s {
        kyc_records =
            upsert_row body.account_id (new_kyc body id_hash country_code now)
              (resubmit body id_hash country_code now) s.kyc_records;
      })

  pub stored : (String → String) → KycSubmitBody → Option String → Db R (Option KycStatus)
  stored sha256_hex body none = pure none
  stored sha256_hex body (some country_code) = do
    now ← get_now
    exec (upsert_kyc body (sha256_hex body.id_number) country_code now)
    pure (some pending)

  -- The status of the reply, or a panic.
  unfoldable pub submit_kyc : (String → String) → KycSubmitBody → Db R (Option KycStatus)
  unfolding stored
  submit_kyc sha256_hex body = do
    fail_if (len body.full_name == 0 || len body.id_number == 0 || ltb (len body.country) 2)
        bad_request
    stored sha256_hex body (get? body.country 0 (min 2 (len body.country)))
