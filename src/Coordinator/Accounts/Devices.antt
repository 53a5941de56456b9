-- ===== src/Coordinator/Accounts/Devices.antt =====
-- Which device an account is bound to.
use Prim.Native.String.{String, len}
use text.Mathlib.Text.{◌==◌ as str_eq}
use text.Mathlib.TextPositions.{eq_refl}
use neuralmesh.Common.{[], true, some, ◌≡◌, refl, false, eqb_refl}
use neuralmesh.Coordinator.Accounts.{
  verified, ReregisterBody, fingerprint_differs, reregister_device, bind_new, updated,
  verify_device, rebound, verified_device, bind_device,
}
use neuralmesh.Coordinator.Rows.{Account}
use neuralmesh.Coordinator.Store.{unwrap_or, Conn, ok}
use neuralmesh.Database.{RowId}
use neuralmesh.Float.{Float}

module _ {R : Float} where
  -- With no fault, an active account is bound to a new device by a request that has its key, whatever old
  -- fingerprint of 64 bytes the request names: the new device is then verified, and a device with
  -- another fingerprint, such as the one that was bound before, is not.
  pub reregister_device-verify_device :
      (k : RowId) (body : ReregisterBody) (c : Conn R) (a : Account) (fingerprint : String)
      → c.faults ≡ []
      → c.store.accounts.row k ≡ some a
      → a.active ≡ some true
      → len body.new_device_fingerprint_hash ≡ 64
      → len body.old_device_fingerprint_hash ≡ 64
      → str_eq a.ecdsa_pubkey_hex body.ecdsa_pubkey_hex ≡ true
      → str_eq body.new_device_fingerprint_hash fingerprint ≡ false
      → let after = reregister_device k body c in
        (after.0 ≡ ok (updated a.account_id (some c.now)))
        × ((verify_device k
              (record {
                device_fingerprint_hash = body.new_device_fingerprint_hash;
                ecdsa_pubkey_hex = body.ecdsa_pubkey_hex;
              })
              after.1).0
            ≡ ok verified_device)
        × ((verify_device k
              (record {
                device_fingerprint_hash = fingerprint;
                ecdsa_pubkey_hex = body.ecdsa_pubkey_hex;
              })
              after.1).0
            ≡ ok fingerprint_differs)
  unfolding reregister_device bind_new rebound verify_device verified
  reregister_device-verify_device k body c a fingerprint f row live long old key differs =
      let act : unwrap_or a.active false ≡ true = rw live refl in
      let after = (reregister_device k body c).1 in
      let calm : after.faults ≡ [] = rw (f, long, old, row, act, key, eqb_refl k, row) refl in
      let bound : after.store.accounts.row k ≡ some (bind_device body c.now a) =
        rw (f, long, old, row, act, key, eqb_refl k, row, eqb_refl k, row) refl in
      (
        rw (f, long, old, row, act, key, eqb_refl k, row) refl,
        rw (calm, bound, act, key, eq_refl body.new_device_fingerprint_hash) refl,
        rw (calm, bound, act, key, differs) refl,
      )
