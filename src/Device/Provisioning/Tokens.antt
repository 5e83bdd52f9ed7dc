-- ===== src/Device/Provisioning/Tokens.antt =====
-- What provisioning asks of a device and what it spends (provision_device).
use robot_fleet.Prelude.{
  ℕ, ◌≡◌, refl, String, false, none, some, List, [], arith, All, Result, ok, err, Result-cases,
  is_ok, unwrap_or, ◌>>=◌, ◌||◌, ◌==◌, inl, inr, eq_refl,
}
use robot_fleet.Grpc.{Status}
use robot_fleet.Pki.Error as Pki
use robot_fleet.Pki.Csr.{Rcgen}
use robot_fleet.Sql.{Conn}
use robot_fleet.Sql.Table.{find, find-append, find-modify, contains-is_some}
use robot_fleet.Device.Store.{
  ManifestEntry, Tables, entry_serial, claim_serial, unclaimed, provisioned, set_provisioned,
  insert_unclaimed, claim_manifest_entry,
}
use robot_fleet.Device.Store.Calls.{Call, Registers, run}
use robot_fleet.Device.Store.Validity.{AnySerial}
use robot_fleet.Device.Store.Manifest.{entry_done, claim_manifest_entry_result, token_used_once}
use robot_fleet.Device.Provisioning.{
  ProvisionDeviceRequest, ProvisioningServer, device_sign, signing_failed, provision_device,
}

module _ (rcgen : Rcgen) (server : ProvisioningServer) (signed_at claimed_at : ℕ) where
  abbrev provision : ProvisionDeviceRequest → Conn Tables → Result Status String × Conn Tables
  provision = provision_device rcgen server signed_at claimed_at

  provision_steps :
      (req : ProvisionDeviceRequest) (c : Conn Tables) (cert : String)
      → (provision req c).0 ≡ ok cert
      → (((req.serial == "") || (req.csr_pem == "") || (req.provision_token == "")) ≡ false)
        × (device_sign rcgen server signed_at claimed_at req.csr_pem ≡ ok cert)
        × (model : String) × ((claim_manifest_entry claimed_at req.serial req.provision_token c).0
            ≡ ok model)
        × ((provision req c).1
            ≡ (claim_manifest_entry claimed_at req.serial req.provision_token c).1)
  unfolding provision_device ◌>>=◌
  provision_steps req c cert h =
      elim (Result-cases (claim_manifest_entry claimed_at req.serial req.provision_token c).0) [
        | inl (e, k) ↦ absurd (ground arith)
        | inr (model, k) ↦ (ground arith, ground arith, model, k, ground arith)
      ]

  -- what the claim of an entry writes, row by row
  rows-insert_unclaimed :
      (serial model : String) (e : ManifestEntry) (t : Tables)
      → find entry_serial serial t.factory_manifest ≡ some e
      → let u = (insert_unclaimed serial model (set_provisioned claimed_at serial t).1).1 in
        (find entry_serial serial u.factory_manifest
          ≡ some (record e { provisioned_at = some claimed_at }))
        × (find claim_serial serial u.pre_enrollment
            ≡ some (
                unwrap_or
                  (find claim_serial serial t.pre_enrollment)
                  (record { serial = serial; model = model; claimed = 0 })))
        × (u.devices ≡ t.devices)
  unfolding insert_unclaimed set_provisioned
  rows-insert_unclaimed serial model e t found = ground (
    arith,
    found,
    eq_refl serial,
    find-append claim_serial serial (unclaimed serial model) t.pre_enrollment,
    contains-is_some claim_serial serial t.pre_enrollment,
    find-modify entry_serial serial serial (provisioned claimed_at) t.factory_manifest (λ r. refl),
  )

  -- A device certificate is issued only if no field of the request is empty and the manifest holds an
  -- entry of the serial, not provisioned before, with exactly the token of the request. The certificate
  -- is signed with the Device CA's key; the entry is marked with the time of the claim; a serial without
  -- a row for enrollment is given an unclaimed one with the entry's model, and one that has a row
  -- keeps it, claimed or not; no device changes, and no transaction is left open.
  pub provision_device_ok :
      (req : ProvisionDeviceRequest) (c : Conn Tables) (cert : String)
      → (provision req c).0 ≡ ok cert
      → let d = (provision req c).1 in
        (((req.serial == "") || (req.csr_pem == "") || (req.provision_token == "")) ≡ false)
        × (device_sign rcgen server signed_at claimed_at req.csr_pem ≡ ok cert)
        × (e : ManifestEntry) × (find entry_serial req.serial c.tables.factory_manifest ≡ some e)
        × (e.token ≡ req.provision_token)
        × (e.provisioned_at ≡ none)
        × (d.saved ≡ none)
        × (find entry_serial req.serial d.tables.factory_manifest
            ≡ some (record e { provisioned_at = some claimed_at }))
        × (find claim_serial req.serial d.tables.pre_enrollment
            ≡ some (
                unwrap_or
                  (find claim_serial req.serial c.tables.pre_enrollment)
                  (record { serial = req.serial; model = e.model; claimed = 0 })))
        × (d.tables.devices ≡ c.tables.devices)
  provision_device_ok req c cert h =
      let (full, signed, model, claim, state) = provision_steps req c cert h in
      let ((e, found, same, fresh, _, written), closed) =
        entry_done req.serial claimed_at req.provision_token c model claim in
      let (marked, row, devices) = rows-insert_unclaimed req.serial e.model e c.tables found in
      (
        full,
        signed,
        e,
        found,
        same,
        fresh,
        rw state closed,
        rw (state, written) marked,
        rw (state, written) row,
        rw (state, written) devices,
      )

  provision_sign_fails :
      (req : ProvisionDeviceRequest) (entry : ManifestEntry) (c : Conn Tables) (e : Pki.Error)
      → ((req.serial == "") || (req.csr_pem == "") || (req.provision_token == "")) ≡ false
      → (claim_manifest_entry claimed_at req.serial req.provision_token c).0 ≡ ok entry.model
      → device_sign rcgen server signed_at claimed_at req.csr_pem ≡ err e
      → provision req c ≡ (
        err (signing_failed e),
        (claim_manifest_entry claimed_at req.serial req.provision_token c).1,
      )
  unfolding provision_device ◌>>=◌
  provision_sign_fails req entry c e full claim h = ground arith

  refused_provisioning :
      (req : ProvisionDeviceRequest) (c : Conn Tables)
      → is_ok (claim_manifest_entry claimed_at req.serial req.provision_token c).0 ≡ false
      → is_ok (provision req c).0 ≡ false
  unfolding provision_device ◌>>=◌
  refused_provisioning req c h = ground arith

-- A token buys one certificate: after a successful provisioning, and any calls to the store, every
-- request for the serial is refused, whatever token it shows.
pub no_second_provisioning :
    (rcgen : Rcgen) (server : ProvisioningServer) (signed claimed signed' claimed' : ℕ)
    (req req' : ProvisionDeviceRequest) (c : Conn Tables) (cert : String) (calls : List Call)
    → (provision_device rcgen server signed claimed req c).0 ≡ ok cert
    → req'.serial ≡ req.serial
    → All (Registers AnySerial) calls
    → is_ok
        (provision_device rcgen server signed' claimed' req'
          (run calls (provision_device rcgen server signed claimed req c).1)).0
      ≡ false
no_second_provisioning rcgen server signed claimed signed' claimed' req req' c cert calls h same
      any =
    let (_, _, model, claim, state) = provision_steps rcgen server signed claimed req c cert h in
    rw state (
      refused_provisioning rcgen server signed' claimed' req' _ (
        rw same (
          token_used_once req.serial req.provision_token req'.provision_token claimed claimed' c
            model calls claim any)))

-- A request that cannot be signed spends the token: the claim of the entry is committed before the
-- request is looked at, so the call ends in an internal error, and from then on every request for
-- the serial is refused, the device's next attempt with the same token included. The token is right
-- and unused before, no transaction is open and nothing fails.
pub signing_failure_burns_token :
    (rcgen : Rcgen) (server : ProvisioningServer) (signed claimed signed' claimed' : ℕ)
    (req req' : ProvisionDeviceRequest) (entry : ManifestEntry) (c : Conn Tables) (e : Pki.Error)
    (calls : List Call)
    → ((req.serial == "") || (req.csr_pem == "") || (req.provision_token == "")) ≡ false
    → c.saved ≡ none
    → c.faults ≡ []
    → find entry_serial req.serial c.tables.factory_manifest ≡ some entry
    → entry.token ≡ req.provision_token
    → entry.provisioned_at ≡ none
    → device_sign rcgen server signed claimed req.csr_pem ≡ err e
    → req'.serial ≡ req.serial
    → All (Registers AnySerial) calls
    → let q = provision_device rcgen server signed claimed req c in
      (q.0 ≡ err (signing_failed e))
      × (is_ok (provision_device rcgen server signed' claimed' req' (run calls q.1)).0 ≡ false)
signing_failure_burns_token rcgen server signed claimed signed' claimed' req req' entry c e calls
      full idle works found token fresh bad same any =
    let claim : (claim_manifest_entry claimed req.serial req.provision_token c).0 ≡ ok entry.model =
      ground (
        arith,
        claim_manifest_entry_result req.serial claimed req.provision_token c idle works,
        eq_refl req.provision_token,
      ) in
    rw (provision_sign_fails rcgen server signed claimed req entry c e full claim bad) (
      refl,
      refused_provisioning rcgen server signed' claimed' req' _ (
          rw same (
            token_used_once req.serial req.provision_token req'.provision_token claimed claimed' c
              entry.model calls claim any)),
    )
