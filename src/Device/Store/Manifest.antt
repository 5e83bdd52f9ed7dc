-- ===== src/Device/Store/Manifest.antt =====
-- The factory manifest and its one-time tokens (`seed_manifest`, `claim_manifest_entry`).
use robot_fleet.Prelude.{
  ℕ, ◌≡◌, refl, ◌∙◌, String, Bool, true, false, Option, none, some, List, [], ◌∷◌, ◌++◌, arith, All,
  eq_iff, eq_refl, ◌==◌, if◌then◌else◌, Result, ok, err, Result-cases, is_ok, is_some, ◌⊎◌, inl,
  inr,
}
use robot_fleet.Sql.{Conn, durable}
use robot_fleet.Sql.Keeping.{Holds}
use robot_fleet.Sql.Transaction.{opened, StaysOpen, durable-transaction_err, durable-transaction_ok}
use robot_fleet.Sql.Table.{find, find-append, find-modify, contains-is_some}
use robot_fleet.Device.Error.{
  Error, db, not_in_manifest, invalid_provision_token, already_provisioned,
}
use robot_fleet.Device.Store.{
  ManifestEntry, Tables, entry_serial, new_entry, provisioned, insert_device, update_device,
  upsert_serial, set_claimed, insert_entry, set_provisioned, insert_unclaimed, claim_entry_once,
  claim_manifest_entry,
}
use robot_fleet.Device.Store.Calls.{Call, IsStable, Registers, run, run-Holds}
use robot_fleet.Device.Store.Validity.{AnySerial}

unfoldable pub is_provisioned : String → Tables → Bool
is_provisioned serial t = elim (find entry_serial serial t.factory_manifest) [
  | none ↦ false
  | some e ↦ is_some e.provisioned_at
]

module _ (serial : String) where
  pub record IsProvisioned (t : Tables) : Type 0 where
    pub provisioned : is_provisioned serial t ≡ true

  is_provisioned-append :
      (t : Tables) (e : ManifestEntry)
      → is_provisioned serial t ≡ true
      → is_provisioned serial (record t { factory_manifest = t.factory_manifest ++ e ∷ [] }) ≡ true
  unfolding is_provisioned
  is_provisioned-append t e h = ground (
    arith,
    find-append entry_serial serial e t.factory_manifest,
    contains-is_some entry_serial serial t.factory_manifest,
  )

  is_provisioned-set_provisioned :
      (now : ℕ) (other : String) (t : Tables)
      → is_provisioned serial t ≡ true
      → is_provisioned serial (set_provisioned now other t).1 ≡ true
  unfolding is_provisioned set_provisioned
  is_provisioned-set_provisioned now other t h = ground (
    arith,
    find-modify entry_serial other serial (provisioned now) t.factory_manifest (λ e. refl),
  )

  IsProvisioned-stable : IsStable AnySerial IsProvisioned
  unfolding insert_device update_device upsert_serial set_claimed insert_entry insert_unclaimed
      is_provisioned
  IsProvisioned-stable = record {
    inserting =
        λ r. record { after = λ t v. record { provisioned = ground (arith, v.provisioned) } };
    changing_status = λ id status. record { after = λ t v. record { provisioned = v.provisioned } };
    touching = λ id now. record { after = λ t v. record { provisioned = v.provisioned } };
    registering = λ other model _. record {
      after = λ t v. record { provisioned = ground (arith, v.provisioned) };
    };
    claiming = λ other. record { after = λ t v. record { provisioned = v.provisioned } };
    seeding = λ other model token. record {
      after = λ t v. record {
        provisioned = ground (
          arith,
          v.provisioned,
          is_provisioned-append t (new_entry other model token) v.provisioned,
        );
      };
    };
    provisioning = λ now other. record {
      after =
          λ t v. record { provisioned = is_provisioned-set_provisioned now other t v.provisioned };
    };
    opening = λ other model. record {
      after = λ t v. record { provisioned = ground (arith, v.provisioned) };
    };
  }

  module _ (now : ℕ) (token : String) where
    entry_refused :
        (c : Conn Tables)
        → is_provisioned serial c.tables ≡ true
        → is_ok (claim_manifest_entry now serial token c).0 ≡ false
    unfolding claim_manifest_entry is_provisioned
    entry_refused c h = ground arith

    StaysOpen-entry : StaysOpen (claim_entry_once now serial token)
    unfolding claim_entry_once
    StaysOpen-entry = record {
      open_still = λ c t h good. ground arith;
      undone = λ c t h. ground arith;
    }

    -- what a successful claim has read and written
    abbrev pub Provisions : Tables → Tables → String → Type 0
    Provisions t u model =
        (e : ManifestEntry) × (find entry_serial serial t.factory_manifest ≡ some e)
        × (e.token ≡ token)
        × (e.provisioned_at ≡ none)
        × (model ≡ e.model)
        × (u ≡ (insert_unclaimed serial e.model (set_provisioned now serial t).1).1)

    claim_entry_once_lem :
        (c : Conn Tables) (model : String)
        → (claim_entry_once now serial token c).0 ≡ ok model
        → (e : ManifestEntry) × (find entry_serial serial c.tables.factory_manifest ≡ some e)
          × ((e.token == token) ≡ true)
          × (e.provisioned_at ≡ none)
          × (model ≡ e.model)
          × ((claim_entry_once now serial token c).1.tables
              ≡ (insert_unclaimed serial e.model (set_provisioned now serial c.tables).1).1)
    unfolding claim_entry_once
    claim_entry_once_lem c model h = ground arith

    pub entry_done :
        (c : Conn Tables) (model : String)
        → (claim_manifest_entry now serial token c).0 ≡ ok model
        → Provisions c.tables (claim_manifest_entry now serial token c).1.tables model
          × ((claim_manifest_entry now serial token c).1.saved ≡ none)
    unfolding claim_manifest_entry
    entry_done c model h =
        let t =
          durable-transaction_ok db (claim_entry_once now serial token) StaysOpen-entry c model h in
        let (e, found, same, fresh, shown, written) = claim_entry_once_lem (opened c) model t.1 in
        ((e, found, (eq_iff e.token token).0 same, fresh, shown, t.2 ∙ written), t.3)

    -- Provisioning is atomic, whichever of its statements the engine fails: either it returns an error
    -- and the durable tables are as before, or the manifest holds an unprovisioned entry of the serial
    -- with exactly this token, its model is returned, the entry is marked, the serial has a row in
    -- `pre_enrollment`, and no transaction is left open.
    pub claim_manifest_entry_atomic :
        (c : Conn Tables)
        → ((e : Error) × ((claim_manifest_entry now serial token c).0 ≡ err e)
            × (durable (claim_manifest_entry now serial token c).1 ≡ durable c))
          ⊎ ((model : String) × ((claim_manifest_entry now serial token c).0 ≡ ok model)
              × Provisions c.tables (claim_manifest_entry now serial token c).1.tables model
              × ((claim_manifest_entry now serial token c).1.saved ≡ none))
    claim_manifest_entry_atomic c =
        elim (Result-cases (claim_manifest_entry now serial token c).0) [
          | inl (e, h) ↦ inl (
            e,
            h,
            unfold claim_manifest_entry in
                durable-transaction_err db (claim_entry_once now serial token) StaysOpen-entry c e
                  h,
          )
          | inr (model, h) ↦ let d = entry_done c model h in inr (model, h, d.0, d.1)
        ]

    set_provisioned-IsProvisioned :
        (t : Tables) (e : ManifestEntry)
        → find entry_serial serial t.factory_manifest ≡ some e
        → is_provisioned serial (insert_unclaimed serial e.model (set_provisioned now serial t).1).1
          ≡ true
    unfolding is_provisioned set_provisioned insert_unclaimed
    set_provisioned-IsProvisioned t e h = ground (
      arith,
      eq_refl serial,
      find-modify entry_serial serial serial (provisioned now) t.factory_manifest (λ e. refl),
    )

    IsProvisioned-after :
        (c : Conn Tables) (model : String)
        → (claim_manifest_entry now serial token c).0 ≡ ok model
        → Holds IsProvisioned (claim_manifest_entry now serial token c).1
    IsProvisioned-after c model h =
        let ((e, found, same, fresh, shown, written), closed) = entry_done c model h in
        record {
          now = record {
            provisioned = rw written (set_provisioned-IsProvisioned c.tables e found);
          };
          after_rollback = rw closed tt;
        }

    abbrev pub entry_result : Option ManifestEntry → Result Error String
    entry_result none = err (not_in_manifest serial)
    entry_result (some e) =
        if e.token == token
        then if is_some e.provisioned_at then err (already_provisioned serial) else ok e.model
        else err (invalid_provision_token serial)

    -- With no transaction open and no failure to come the claim's result is decided by the entry of
    -- the serial, in this order: there is one, its token is the one given, it is not provisioned.
    pub claim_manifest_entry_result :
        (c : Conn Tables)
        → c.saved ≡ none
        → c.faults ≡ []
        → (claim_manifest_entry now serial token c).0
          ≡ entry_result (find entry_serial serial c.tables.factory_manifest)
    unfolding claim_manifest_entry
    claim_manifest_entry_result c idle works = ground arith

-- A token is good for one provisioning: after a call of `claim_manifest_entry` that succeeded, and any
-- calls, another one for the serial fails, whatever token it has. The engine may fail any statement on
-- the way.
pub token_used_once :
    (serial token later_token : String) (now later : ℕ) (c : Conn Tables) (model : String)
    (calls : List Call)
    → (claim_manifest_entry now serial token c).0 ≡ ok model
    → All (Registers AnySerial) calls
    → is_ok
        (claim_manifest_entry later serial later_token
          (run calls (claim_manifest_entry now serial token c).1)).0
      ≡ false
token_used_once serial token later_token now later c model calls h any =
    entry_refused serial later later_token _
      (run-Holds (IsProvisioned-stable serial) calls _ any
        (IsProvisioned-after serial now token c model h)).now.provisioned
