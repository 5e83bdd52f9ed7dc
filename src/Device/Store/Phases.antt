-- ===== src/Device/Store/Phases.antt =====
-- What the store promises about one serial, without its tables: a small machine, which every call of the
-- store follows.
pub mod Runs
use robot_fleet.Prelude.{
  ℕ, ◌≡◌, refl, ap, String, Bool, true, false, Option, none, some, arith, eq_iff, eq_refl,
  if◌then◌else◌, ◌==◌, nat_eq, is_ok, inl, inr,
}
use robot_fleet.Sql.{Conn, durable}
use robot_fleet.Sql.Table.{
  find, contains, find-append, find-modify, contains-append, contains-modify, contains-is_some,
}
use robot_fleet.Device.Store.{
  NewDevice, DeviceRecord, PreEnrollment, ManifestEntry, Tables, id_of, serial_of, claim_serial,
  entry_serial, new_record, new_entry, provisioned, unclaimed, with_claimed, with_status, seen_at,
  update_device, set_claimed, insert_entry, set_provisioned, insert_unclaimed, create_device,
  get_device, get_by_serial, update_status, touch_last_seen, list_devices, register_serial,
  lookup_and_claim, count_devices, seed_manifest, claim_manifest_entry,
}
use robot_fleet.Device.Store.Calls.{
  Call, creates, gets, gets_by_serial, updates_status, touches, lists, registers, claims, counts,
  seeds, claims_entry, perform,
}
use robot_fleet.Device.Store.Claims.{lookup_and_claim_atomic}
use robot_fleet.Device.Store.Manifest.{claim_manifest_entry_atomic}

-- how far the enrollment of a serial has come
pub data Claim : Type 0 where
  unknown available claimed : Claim

-- what the factory manifest has for a serial
pub data Token : Type 0 where
  absent spent : Token
  unspent : String → Token

pub record Phase : Type 0 where
  pub is_device : Bool
  pub claim : Claim
  pub token : Token

-- registering a serial makes it available again unless it is that of a device
abbrev pub reopened : Bool → Claim → Claim
reopened true claimed = claimed
reopened true unknown = available
reopened true available = available
reopened false c = available

abbrev pub taken : Claim → Phase → Option Phase
taken available p = some (record p { claim = claimed })
taken unknown p = none
taken claimed p = none

abbrev pub opened : Claim → Claim
opened unknown = available
opened available = available
opened claimed = claimed

abbrev pub spend : String → Token → Phase → Option Phase
spend token (unspent t) p =
    if t == token then some (record p { token = spent; claim = opened p.claim }) else none
spend token absent p = none
spend token spent p = none

abbrev pub seeded : String → Token → Token
seeded token absent = unspent token
seeded token spent = spent
seeded token (unspent t) = unspent t

-- the phase of a serial after a call, or none if the machine refuses the call
abbrev pub act : String → Call → Phase → Option Phase
act serial (creates id now d) p =
    if d.serial == serial
    then if p.is_device then none else some (record p { is_device = true })
    else some p
act serial (registers other model) p =
    if other == serial then some (record p { claim = reopened p.is_device p.claim }) else some p
act serial (claims other) p = if other == serial then taken p.claim p else some p
act serial (seeds other model token) p =
    if other == serial then some (record p { token = seeded token p.token }) else some p
act serial (claims_entry now other token) p =
    if other == serial then spend token p.token p else some p
act serial (gets id) p = some p
act serial (gets_by_serial other) p = some p
act serial (updates_status id status reason) p = some p
act serial (touches now id) p = some p
act serial (lists model status limit cursor) p = some p
act serial counts p = some p

abbrev pub succeeds : Call → Conn Tables → Bool
succeeds (creates id now d) c = is_ok (create_device id now d c).0
succeeds (gets id) c = is_ok (get_device id c).0
succeeds (gets_by_serial serial) c = is_ok (get_by_serial serial c).0
succeeds (updates_status id status reason) c = is_ok (update_status id status reason c).0
succeeds (touches now id) c = is_ok (touch_last_seen now id c).0
succeeds (lists model status limit cursor) c = is_ok (list_devices model status limit cursor c).0
succeeds (registers serial model) c = is_ok (register_serial serial model c).0
succeeds (claims serial) c = is_ok (lookup_and_claim serial c).0
succeeds counts c = is_ok (count_devices c).0
succeeds (seeds serial model token) c = is_ok (seed_manifest serial model token c).0
succeeds (claims_entry now serial token) c = is_ok (claim_manifest_entry now serial token c).0

abbrev pub claim_of : Option PreEnrollment → Claim
claim_of none = unknown
claim_of (some r) = if nat_eq r.claimed 0 then available else claimed

abbrev pub token_or_spent : String → Option ℕ → Token
token_or_spent token none = unspent token
token_or_spent token (some t) = spent

abbrev pub token_of : Option ManifestEntry → Token
token_of none = absent
token_of (some e) = token_or_spent e.token e.provisioned_at

module _ (serial : String) where
  -- the phase that the tables show
  unfoldable pub phase : Tables → Phase
  phase t = record {
    is_device = contains serial_of serial t.devices;
    claim = claim_of (find claim_serial serial t.pre_enrollment);
    token = token_of (find entry_serial serial t.factory_manifest);
  }

  abbrev Follows : Call → Conn Tables → Type 0
  Follows call c =
      (if succeeds call c then act serial call (phase c.tables) else some (phase c.tables))
      ≡ some (phase (durable (perform call c)))

  phase-update_device :
      (id : String) (f : DeviceRecord → DeviceRecord) (t : Tables)
      → ((r : DeviceRecord) → serial_of (f r) ≡ serial_of r)
      → phase (update_device id f t).1 ≡ phase t
  unfolding phase update_device
  phase-update_device id f t same =
      rw (contains-modify id_of serial_of f same id serial t.devices) refl

  create_device-Follows :
      (id : String) (now : ℕ) (d : NewDevice) (c : Conn Tables)
      → c.saved ≡ none
      → Follows (creates id now d) c
  unfolding perform create_device phase
  create_device-Follows id now d c idle = ground (
    arith,
    idle,
    eq_iff d.serial serial,
    contains-append serial_of serial (new_record id now d) c.tables.devices,
  )

  register_serial-Follows :
      (other model : String) (c : Conn Tables) → c.saved ≡ none → Follows (registers other model) c
  unfolding perform register_serial phase
  register_serial-Follows other model c idle = ground (
    arith,
    idle,
    eq_iff other serial,
    find-append claim_serial serial (unclaimed other model) c.tables.pre_enrollment,
    find-modify claim_serial other serial (with_claimed 0) c.tables.pre_enrollment (λ r. refl),
    contains-is_some claim_serial serial c.tables.pre_enrollment,
  )

  update_status-Follows :
      (id status reason : String) (c : Conn Tables)
      → c.saved ≡ none
      → Follows (updates_status id status reason) c
  unfolding perform update_status
  update_status-Follows id status reason c idle =
      ground (arith, idle, phase-update_device id (with_status status) c.tables (λ r. refl))

  touch_last_seen-Follows :
      (now : ℕ) (id : String) (c : Conn Tables) → c.saved ≡ none → Follows (touches now id) c
  unfolding perform touch_last_seen
  touch_last_seen-Follows now id c idle =
      ground (arith, idle, phase-update_device id (seen_at now) c.tables (λ r. refl))

  seed_manifest-Follows :
      (other model token : String) (c : Conn Tables)
      → c.saved ≡ none
      → Follows (seeds other model token) c
  unfolding perform seed_manifest insert_entry phase
  seed_manifest-Follows other model token c idle = ground (
    arith,
    idle,
    eq_iff other serial,
    find-append entry_serial serial (new_entry other model token) c.tables.factory_manifest,
    contains-is_some entry_serial serial c.tables.factory_manifest,
  )

  phase-set_claimed :
      (other : String) (r : PreEnrollment) (t : Tables)
      → find claim_serial other t.pre_enrollment ≡ some r
      → r.claimed ≡ 0
      → act serial (claims other) (phase t) ≡ some (phase (set_claimed other t).1)
  unfolding phase set_claimed
  phase-set_claimed other r t found fresh = ground (
    arith,
    found,
    fresh,
    eq_iff other serial,
    find-modify claim_serial other serial (with_claimed 1) t.pre_enrollment (λ r. refl),
  )

  lookup_and_claim-Follows :
      (other : String) (c : Conn Tables) → c.saved ≡ none → Follows (claims other) c
  unfolding perform
  lookup_and_claim-Follows other c idle = elim (lookup_and_claim_atomic other c) [
    | inl (e, failed, kept) ↦ ground (arith, idle, failed, ap phase kept)
    | inr (rec, won, (r, found, fresh, shown, written, closed)) ↦
        ground
          (arith, closed, won, ap phase written, phase-set_claimed other r c.tables found fresh)
  ]

  phase-insert_unclaimed :
      (now : ℕ) (other token : String) (e : ManifestEntry) (t : Tables)
      → find entry_serial other t.factory_manifest ≡ some e
      → e.token ≡ token
      → e.provisioned_at ≡ none
      → act serial (claims_entry now other token) (phase t)
        ≡ some (phase (insert_unclaimed other e.model (set_provisioned now other t).1).1)
  unfolding phase insert_unclaimed set_provisioned
  phase-insert_unclaimed now other token e t found same fresh = ground (
    arith,
    found,
    fresh,
    same,
    eq_refl token,
    eq_iff other serial,
    find-append claim_serial serial (unclaimed other e.model) t.pre_enrollment,
    contains-is_some claim_serial serial t.pre_enrollment,
    find-modify entry_serial other serial (provisioned now) t.factory_manifest (λ r. refl),
  )

  claim_manifest_entry-Follows :
      (now : ℕ) (other token : String) (c : Conn Tables)
      → c.saved ≡ none
      → Follows (claims_entry now other token) c
  unfolding perform
  claim_manifest_entry-Follows now other token c idle =
      elim (claim_manifest_entry_atomic other now token c) [
        | inl (e, failed, kept) ↦ ground (arith, idle, failed, ap phase kept)
        | inr (model, won, (e, found, same, fresh, shown, written), closed) ↦ ground (
          arith,
          closed,
          won,
          ap phase written,
          phase-insert_unclaimed now other token e c.tables found same fresh,
        )
      ]

  -- The store implements the machine: a call succeeds only if the machine does not refuse it, and then takes
  -- the phase of a serial where the machine does; a call that fails, of whichever statement, leaves it.
  -- The machine claims a serial only if it is available, spends only the token that the manifest has,
  -- and that once, admits one device for a serial, and reopens no serial of a device. The phase is that
  -- of the durable tables, and no transaction is open before the call.
  pub perform_follows :
      (call : Call) (c : Conn Tables)
      → c.saved ≡ none
      → (if succeeds call c then act serial call (phase c.tables) else some (phase c.tables))
        ≡ some (phase (durable (perform call c)))
  unfolding perform get_device get_by_serial list_devices count_devices
  perform_follows (creates id now d) c idle = create_device-Follows id now d c idle
  perform_follows (gets id) c idle = ground (arith, idle)
  perform_follows (gets_by_serial other) c idle = ground (arith, idle)
  perform_follows (updates_status id status reason) c idle =
      update_status-Follows id status reason c idle
  perform_follows (touches now id) c idle = touch_last_seen-Follows now id c idle
  perform_follows (lists model status limit cursor) c idle = ground (arith, idle)
  perform_follows (registers other model) c idle = register_serial-Follows other model c idle
  perform_follows (claims other) c idle = lookup_and_claim-Follows other c idle
  perform_follows counts c idle = ground (arith, idle)
  perform_follows (seeds other model token) c idle = seed_manifest-Follows other model token c idle
  perform_follows (claims_entry now other token) c idle =
      claim_manifest_entry-Follows now other token c idle
