-- ===== src/Device/Store/Stuck.antt =====
-- What a failed COMMIT leaves behind: `lookup_and_claim` returns its error and does not roll back, and all
-- calls share the connection.
use robot_fleet.Prelude.{
  ℕ, ◌≡◌, refl, String, Bool, true, false, Option, none, some, List, [], ◌∷◌, arith, err, is_ok,
  Method, not, ◌&&◌,
}
use robot_fleet.Prelude.Results.Keeps.{Keeps, keeps_rules}
use robot_fleet.Sql.{
  SqlError, failure, Fault, Conn, durable, next_fault, later_faults, statement, transaction,
}
use robot_fleet.Sql.Table.{find}
use robot_fleet.Device.Error.{Error, db}
use robot_fleet.Device.Store.{
  PreEnrollment, Tables, claim_serial, query_row, create_device, get_device, get_by_serial,
  update_status, touch_last_seen, list_devices, register_serial, claim_serial_once,
  lookup_and_claim, count_devices, seed_manifest, claim_entry_once, claim_manifest_entry,
}
use robot_fleet.Device.Store.Calls.{
  Call, creates, gets, gets_by_serial, updates_status, touches, lists, registers, claims, counts,
  seeds, claims_entry, perform, run,
}

-- a failure that leaves an open transaction open
abbrev pub leave_open : List (Option Fault) → Bool
leave_open [] = true
leave_open (none ∷ fs) = leave_open fs
leave_open (some f ∷ fs) = not f.rolls_back && leave_open fs

leave_open-later :
    (fs : List (Option Fault)) → leave_open fs ≡ true → leave_open (later_faults fs) ≡ true
leave_open-later [] h = refl
leave_open-later (none ∷ fs) h = h
leave_open-later (some f ∷ fs) h = ground arith

leave_open-next :
    (fs : List (Option Fault)) (f : Fault)
    → leave_open fs ≡ true
    → next_fault fs ≡ some f
    → f.rolls_back ≡ false
leave_open-next [] f h k = cc
leave_open-next (none ∷ fs) f h k = cc
leave_open-next (some g ∷ fs) f h k = ground arith

module _ (t : Tables) where
  -- In an open transaction no call writes anything durable, and no other transaction succeeds.
  refused :
      {A : Type 0} (body : Method (Conn Tables) Error A) (c : Conn Tables)
      → c.saved ≡ some t
      → (is_ok (transaction db body c).0 ≡ false) × (durable (transaction db body c).1 ≡ t)
  unfolding transaction
  refused body c h = ground (arith, h)

  pub durable-perform :
      (call : Call) (c : Conn Tables) → c.saved ≡ some t → durable (perform call c) ≡ t
  unfolding perform create_device get_device get_by_serial update_status touch_last_seen
      list_devices register_serial lookup_and_claim count_devices seed_manifest claim_manifest_entry
  durable-perform (creates id now d) c h = ground (arith, h)
  durable-perform (gets id) c h = ground (arith, h)
  durable-perform (gets_by_serial serial) c h = ground (arith, h)
  durable-perform (updates_status id status reason) c h = ground (arith, h)
  durable-perform (touches now id) c h = ground (arith, h)
  durable-perform (lists model status limit cursor) c h = ground (arith, h)
  durable-perform (registers serial model) c h = ground (arith, h)
  durable-perform (claims serial) c h = (refused (claim_serial_once serial) c h).1
  durable-perform counts c h = ground (arith, h)
  durable-perform (seeds serial model token) c h = ground (arith, h)
  durable-perform (claims_entry now serial token) c h =
      (refused (claim_entry_once now serial token) c h).1

  -- a transaction is open, and no failure to come rolls it back
  record IsStuck (c : Conn Tables) : Type 0 where
    still_open : c.saved ≡ some t
    to_come : leave_open c.faults ≡ true

  IsStuck-statement : {A : Type 0} (m : Method Tables SqlError A) → Keeps IsStuck (statement m)
  unfolding statement
  IsStuck-statement m = record {
    after = λ c h. record {
      still_open = ground (arith, h.still_open, leave_open-next c.faults, h.to_come);
      to_come = ground (arith, leave_open-later c.faults h.to_come);
    };
  }

  IsStuck-transaction :
      {A : Type 0} (body : Method (Conn Tables) Error A) → Keeps IsStuck (transaction db body)
  unfolding transaction
  IsStuck-transaction body = record {
    after = λ c h. record {
      still_open = ground (arith, h.still_open, leave_open-next c.faults, h.to_come);
      to_come = ground (arith, h.still_open, leave_open-later c.faults h.to_come);
    };
  }

  perform-IsStuck : (call : Call) (c : Conn Tables) → IsStuck c → IsStuck (perform call c)
  unfolding perform create_device get_device get_by_serial update_status touch_last_seen
      list_devices register_serial lookup_and_claim count_devices seed_manifest claim_manifest_entry
      query_row
  perform-IsStuck (creates id now d) c h =
      let k : Keeps IsStuck (create_device id now d) = search (keeps_rules, IsStuck-statement) in
      k.after c h
  perform-IsStuck (gets id) c h =
      let k : Keeps IsStuck (get_device id) = search (keeps_rules, IsStuck-statement) in k.after c h
  perform-IsStuck (gets_by_serial serial) c h =
      let k : Keeps IsStuck (get_by_serial serial) = search (keeps_rules, IsStuck-statement) in
      k.after c h
  perform-IsStuck (updates_status id status reason) c h =
      let k : Keeps IsStuck (update_status id status reason) =
        search (keeps_rules, IsStuck-statement) in
      k.after c h
  perform-IsStuck (touches now id) c h =
      let k : Keeps IsStuck (touch_last_seen now id) = search (keeps_rules, IsStuck-statement) in
      k.after c h
  perform-IsStuck (lists model status limit cursor) c h =
      let k : Keeps IsStuck (list_devices model status limit cursor) =
        search (keeps_rules, IsStuck-statement) in
      k.after c h
  perform-IsStuck (registers serial model) c h =
      let k : Keeps IsStuck (register_serial serial model) =
        search (keeps_rules, IsStuck-statement) in
      k.after c h
  perform-IsStuck counts c h =
      let k : Keeps IsStuck (count_devices) = search (keeps_rules, IsStuck-statement) in k.after c h
  perform-IsStuck (seeds serial model token) c h =
      let k : Keeps IsStuck (seed_manifest serial model token) =
        search (keeps_rules, IsStuck-statement) in
      k.after c h
  perform-IsStuck (claims serial) c h = (IsStuck-transaction (claim_serial_once serial)).after c h
  perform-IsStuck (claims_entry now serial token) c h =
      (IsStuck-transaction (claim_entry_once now serial token)).after c h

  run-IsStuck : (calls : List Call) (c : Conn Tables) → IsStuck c → IsStuck (run calls c)
  unfolding run
  run-IsStuck [] c h = h
  run-IsStuck (call ∷ calls) c h = run-IsStuck calls (perform call c) (perform-IsStuck call c h)

-- the claim whose COMMIT, its fourth statement, fails
commit_fails :
    (serial : String) (r : PreEnrollment) (t : Tables) (f : Fault) (later : List (Option Fault))
    → find claim_serial serial t.pre_enrollment ≡ some r
    → r.claimed ≡ 0
    → f.rolls_back ≡ false
    → let c : Conn Tables = record {
      tables = t;
      saved = none;
      faults = none ∷ none ∷ none ∷ some f ∷ later;
    } in
      ((lookup_and_claim serial c).0 ≡ err (db (failure f.text)))
      × ((lookup_and_claim serial c).1.saved ≡ some t)
      × ((lookup_and_claim serial c).1.faults ≡ later)
unfolding lookup_and_claim
commit_fails serial r t f later found fresh stays = ground (arith, found, fresh, stays)

-- When the COMMIT of a claim fails and SQLite leaves the transaction open, as it does with SQLITE_BUSY, the
-- store is stuck: the claim returns the error without a rollback, and from then on, whatever calls are
-- made, no claim of any serial succeeds, no provisioning does, and nothing that any call writes is
-- ever durable. It lasts as long as no failure makes SQLite roll back by itself. The serial is there
-- and unclaimed, and no transaction was open.
pub failed_commit_blocks :
    (serial other token : String) (now : ℕ) (r : PreEnrollment) (t : Tables) (f : Fault)
    (later : List (Option Fault)) (calls : List Call)
    → find claim_serial serial t.pre_enrollment ≡ some r
    → r.claimed ≡ 0
    → f.rolls_back ≡ false
    → leave_open later ≡ true
    → let q =
        lookup_and_claim serial
          (record { tables = t; saved = none; faults = none ∷ none ∷ none ∷ some f ∷ later }) in
      (q.0 ≡ err (db (failure f.text)))
      × (is_ok (lookup_and_claim other (run calls q.1)).0 ≡ false)
      × (is_ok (claim_manifest_entry now other token (run calls q.1)).0 ≡ false)
      × (durable (run calls q.1) ≡ t)
unfolding lookup_and_claim claim_manifest_entry
failed_commit_blocks serial other token now r t f later calls found fresh stays calm =
    let c : Conn Tables = record {
      tables = t;
      saved = none;
      faults = none ∷ none ∷ none ∷ some f ∷ later;
    } in
    let (failed, open_still, left) = commit_fails serial r t f later found fresh stays in
    let d = (lookup_and_claim serial c).1 in
    let stuck =
      run-IsStuck t calls d (record { still_open = open_still; to_come = rw left calm }) in
    (
      failed,
      (refused t (claim_serial_once other) (run calls d) stuck.still_open).0,
      (refused t (claim_entry_once now other token) (run calls d) stuck.still_open).0,
      ground (arith, stuck.still_open),
    )
