-- ===== src/Coordinator/Kyc/Approval.antt =====
-- Whom an approval is for.
use Prim.Native.String.{String, len}
use text.Mathlib.Text.{get?}
use neuralmesh.Common.{true, [], ◌||◌, some, ℕ, min, ◌≡◌, false, refl, ltb, ◌==◌, eqb_refl}
use neuralmesh.Coordinator.Accounts.{verified}
use neuralmesh.Coordinator.Kyc.{
  stored, is_id_type, get_kyc, submit_kyc, pending, KycSubmitBody, approved,
}
use neuralmesh.Coordinator.Migration.{is_some}
use neuralmesh.Coordinator.Rows.{KycRecord, Account}
use neuralmesh.Coordinator.Store.{Conn, ok}
use neuralmesh.Float.{Float}

module _ {R : Float} where
  -- With no fault, an account whose record was verified can submit another identity, and is approved
  -- under it, with its name, type, hash and country in the record, though the reply calls it pending; this holds of a record that was rejected too. The new
  -- name and id number are not empty, the type of the id is known, and the country begins with two
  -- bytes of whole characters.
  pub submit_kyc-get_kyc :
      (sha256_hex : String → String) (body : KycSubmitBody) (c : Conn R) (a : Account)
      (k : KycRecord R) (verified : ℕ) (code : String)
      → c.faults ≡ []
      → (len body.full_name == 0 || len body.id_number == 0 || ltb (len body.country) 2) ≡ false
      → get? body.country 0 (min 2 (len body.country)) ≡ some code
      → is_id_type body.id_type ≡ true
      → c.store.accounts.row body.account_id ≡ some a
      → c.store.kyc_records.row body.account_id ≡ some k
      → k.verified_at ≡ some verified
      → let after = submit_kyc sha256_hex body c in
        let reply = (get_kyc body.account_id after.1).0 in
        (after.0 ≡ ok (some pending))
        × (reply
            ≡ ok (record {
              status = approved;
              compliance_level = k.kyc_level;
              record_of = some (record {
                account_id = k.account_id;
                country_code = code;
                full_name = body.full_name;
                id_type = body.id_type;
                id_number_hash = sha256_hex body.id_number;
                kyc_level = k.kyc_level;
                annual_limit_myr = k.annual_limit_myr;
                submitted_at = c.now;
                verified_at = k.verified_at;
                archived = false;
              });
            }))
  unfolding submit_kyc stored get_kyc
  submit_kyc-get_kyc sha256_hex body c a k verified code f whole cut type account row approved_at =
      let known : is_some k.verified_at ≡ true = rw approved_at refl in
      (
        rw (f, whole, cut, account, type) refl,
        rw (f, whole, cut, account, type, row, eqb_refl body.account_id, row, known) refl,
      )
