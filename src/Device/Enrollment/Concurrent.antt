-- ===== src/Device/Enrollment/Concurrent.antt =====
-- Enrollments that overlap. Each handler claims a serial, signs, and stores the device; the store's mutex
-- is held for a call and not between calls, so the calls of many handlers, and any others, interleave.
pub mod Refinement
use robot_fleet.Prelude.{
  ℕ, zero, suc, ◌+◌, ◌≤◌, ◌<◌, dec_lt, Bool-cases, ◌≡◌, refl, ap, ◌∙◌, String, Bool, true, false,
  List, [], ◌∷◌, ◌++◌, arith, ◌==◌, eq_refl, eq_iff, if◌then◌else◌, Result, ok, err, is_ok, ◌⊎◌,
  inl, inr,
}
use robot_fleet.Prelude.Results.Keeps.{Keeps}
use robot_fleet.Sql.{Conn}
use robot_fleet.Sql.Keeping.{Holds}
use robot_fleet.Device.Error.{Error}
use robot_fleet.Device.Store.{
  NewDevice, DeviceRecord, PreEnrollmentRecord, Tables, create_device, lookup_and_claim,
}
use robot_fleet.Device.Store.Calls.{
  Call, Registers, perform, perform-Holds, create_device-Holds, lookup_and_claim-Holds,
}
use robot_fleet.Device.Store.Claims.{
  IsClaimed, IsClaimed-stable, IsClaimed-after, OtherSerial, unclaimed_before, is_claimed,
}

-- the store, the serials whose claim was won by a handler that still runs, and those that were admitted
pub record System : Type 0 where
  pub conn : Conn Tables
  pub in_flight : List String
  pub admitted : List String

abbrev pub claimed : String → System → System
claimed cert_serial s = record {
  conn = (lookup_and_claim cert_serial s.conn).1;
  in_flight = cert_serial ∷ s.in_flight;
  admitted = s.admitted;
}

abbrev pub stored : List String → String → ℕ → NewDevice → System → System
stored others id now d s = record {
  conn = (create_device id now d s.conn).1;
  in_flight = others;
  admitted = d.serial ∷ s.admitted;
}

module _ (serial : String) where
  -- One step of some handler. A handler that fails to sign, or is cancelled, gives up. Only the
  -- registration of `serial` itself is left out of the other calls.
  pub data Step (s : System) : System → Type 0 where
    claims :
        (cert_serial : String) (pre : PreEnrollmentRecord)
        → (lookup_and_claim cert_serial s.conn).0 ≡ ok pre
        → Step s (claimed cert_serial s)
    gives_up :
        (before after : List String) (cert_serial : String)
        → s.in_flight ≡ before ++ cert_serial ∷ after
        → Step s (record s { in_flight = before ++ after })
    stores :
        (before after : List String) (id : String) (now : ℕ) (d : NewDevice) (r : DeviceRecord)
        → s.in_flight ≡ before ++ d.serial ∷ after
        → (create_device id now d s.conn).0 ≡ ok r
        → Step s (stored (before ++ after) id now d s)
    calls :
        (call : Call)
        → Registers (OtherSerial serial) call
        → Step s (record s { conn = perform call s.conn })

  pub data Reach (s : System) : System → Type 0 where
    here : Reach s s
    next : {t u : System} → Reach s t → Step t u → Reach s u

  abbrev pub times : List String → ℕ
  times [] = 0
  times (x ∷ xs) = if x == serial then suc (times xs) else times xs

  times-append :
      (x : String) (before after : List String)
      → times (before ++ x ∷ after)
        ≡ (if x == serial then suc (times (before ++ after)) else times (before ++ after))
  times-append x [] after = refl
  times-append x (b ∷ before) after = ground (arith, times-append x before after)

  -- the claims of the serial that were won
  abbrev won : System → ℕ
  won s = times s.in_flight + times s.admitted

  abbrev IsExclusive : System → Type 0
  IsExclusive s = (won s ≤ 1) × (0 < won s → Holds (IsClaimed serial) s.conn)

  IsExclusive-fewer :
      (s t : System)
      → IsExclusive s
      → won t ≤ won s
      → (Holds (IsClaimed serial) s.conn → Holds (IsClaimed serial) t.conn)
      → IsExclusive t
  IsExclusive-fewer s t (once, held) less kept = (omega arith, λ h. kept (held (omega arith)))

  -- A claim that is won while none is out leaves the serial claimed.
  IsExclusive-claim :
      (s : System) (pre : PreEnrollmentRecord)
      → (lookup_and_claim serial s.conn).0 ≡ ok pre
      → IsExclusive s
      → (won s ≡ 0) × Holds (IsClaimed serial) (lookup_and_claim serial s.conn).1
  IsExclusive-claim s pre h (once, held) =
      let free = unclaimed_before serial s.conn pre h in
      (
        elim (dec_lt 0 (won s)) [
          | yes out ↦ let taken = (held out).now.claimed in absurd (ground (arith, free, taken))
          | no out ↦ omega arith
        ],
        IsClaimed-after serial s.conn pre h,
      )

  Step-IsExclusive : {s t : System} → Step s t → IsExclusive s → IsExclusive t
  Step-IsExclusive {s = s} (claims x pre h) e = elim (Bool-cases (x == serial)) [
    | inl same ↦
        let own : x ≡ serial = (eq_iff x serial).0 same in
        let (free, taken) = IsExclusive-claim s pre (rw own at h) e in
        (ground (arith, same, free), λ k. rw own taken)
    | inr other ↦
        IsExclusive-fewer s (claimed x s) e (ground (arith, other))
          ((lookup_and_claim-Holds (IsClaimed-stable serial) x).after s.conn)
  ]
  Step-IsExclusive {s = s} (gives_up before after x h) e =
      IsExclusive-fewer s (record s { in_flight = before ++ after }) e
        (rw h (ground (arith, times-append x before after))) (λ k. k)
  Step-IsExclusive {s = s} (stores before after id now d r h k) e =
      IsExclusive-fewer s (stored (before ++ after) id now d s) e
        (rw h (ground (arith, times-append d.serial before after)))
        ((create_device-Holds (IsClaimed-stable serial) id now d).after s.conn)
  Step-IsExclusive {s = s} (calls call h) e =
      IsExclusive-fewer s (record s { conn = perform call s.conn }) e (omega arith)
        (perform-Holds (IsClaimed-stable serial) call s.conn h)

  Reach-IsExclusive : {s t : System} → Reach s t → IsExclusive s → IsExclusive t
  Reach-IsExclusive here e = e
  Reach-IsExclusive (next r step) e = Step-IsExclusive step (Reach-IsExclusive r e)

  -- However many enrollments overlap, a serial is admitted at most once, and not while another claim of it
  -- is out, as long as nothing registers it again: the service was started on any store, any handlers
  -- may fail or be cancelled at any point, and any statement may fail.
  pub admitted_once :
      (c : Conn Tables) (s : System)
      → Reach (record { conn = c; in_flight = []; admitted = [] }) s
      → times s.in_flight + times s.admitted ≤ 1
  admitted_once c s r = (Reach-IsExclusive r (omega arith, λ h. absurd (omega arith))).0
