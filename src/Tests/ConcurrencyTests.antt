-- ===== src/Tests/ConcurrencyTests.antt =====
-- Overlapping enrollments, and the pages of a robot's jobs, at concrete inputs.
use robot_fleet.Prelude.{◌+◌, ◌≤◌, ◌≡◌, refl, String, none, List, [], ◌∷◌, map, arith}
use robot_fleet.Prelude.Text.{text_ltb}
use robot_fleet.Sql.{Conn}
use robot_fleet.Sql.Table.{find, contains, modify}
use robot_fleet.Device.Store.{NewDevice, lookup_and_claim, create_device, new_record}
use robot_fleet.Device.Store.Calls.{perform, claims as claiming}
use robot_fleet.Device.Enrollment.Concurrent.{
  System, Reach, here, next, claims, stores, calls, claimed, stored, times, admitted_once,
}
use robot_fleet.Device.Enrollment.Concurrent.Refinement.{end_of, admit-Reach}
use robot_fleet.Ota.Store.{JobRow, Jobs, list_for_device, row_to_record, new_row, NewJob}
use robot_fleet.Ota.Store.Paging.{walk, job_pages_complete}
use robot_fleet.Ota.Store.Paging.Ties.{created_in, browse, tied_jobs_left_out}
use robot_fleet.Tests.Fixtures.{toy_rcgen, toy_x509, service, inputs, registry}

abbrev idle : System
idle = record { conn = registry; in_flight = []; admitted = [] }

abbrev arrival : NewDevice
arrival = record {
  serial = "SN-1";
  model = "humanoid-v2";
  firmware = "1.0.0";
  operational_cert_pem = "cert";
}

-- a second handler's claim comes between the claim and the storing of the first
abbrev overlapped : System
overlapped = record (claimed "SN-1" idle) {
  conn = (lookup_and_claim "SN-1" (claimed "SN-1" idle).conn).1;
}

abbrev finished : System
finished = stored [] "d2" 20 arrival overlapped

reaches : Reach "SN-1" idle finished
unfolding lookup_and_claim find create_device contains perform modify
reaches =
    next
      (next (next here (claims "SN-1" (record { serial = "SN-1"; model = "humanoid-v2" }) refl))
        (calls (claiming "SN-1") tt))
      (stores [] [] "d2" 20 arrival (new_record "d2" 20 arrival) refl refl)

admitted_once_example : times "SN-1" finished.in_flight + times "SN-1" finished.admitted ≤ 1
admitted_once_example = admitted_once "SN-1" registry finished reaches

admit-Reach_example :
    Reach "SN-1" idle
      (end_of toy_rcgen toy_x509 service inputs "request" "1.0.0" "SN-1" "SN-1" idle)
admit-Reach_example =
    admit-Reach toy_rcgen toy_x509 service inputs "request" "1.0.0" "SN-1" "SN-1" idle

abbrev new_job : String → NewJob
new_job version = record {
  device_id = "d9";
  target_version = version;
  artifact_url = "url";
  sha256 = "";
  size_bytes = 0;
}

abbrev morning : JobRow
morning = new_row "j1" "2026-01-01 08:00:00" (new_job "1.0.0")

abbrev noon : JobRow
noon = new_row "j2" "2026-01-01 12:00:00" (new_job "1.1.0")

abbrev at_noon_too : JobRow
at_noon_too = new_row "j3" "2026-01-01 12:00:00" (new_job "1.2.0")

abbrev jobs : List JobRow → Conn Jobs
jobs rows = record { tables = rows; saved = none; faults = [] }

job_pages_complete_example :
    walk "d9" 1 (jobs (morning ∷ noon ∷ [])) 3 none ≡ map row_to_record (noon ∷ morning ∷ [])
unfolding contains text_ltb
job_pages_complete_example =
    job_pages_complete "d9" 1 3 (jobs (morning ∷ noon ∷ [])) refl (refl, (refl, tt)) (omega arith)
      (omega arith)

-- One of the two jobs of noon is never shown.
tied_jobs_left_out_example :
    created_in "2026-01-01 12:00:00"
      (browse "d9" 1 9 none (jobs (morning ∷ noon ∷ at_noon_too ∷ [])))
    ≡ row_to_record at_noon_too ∷ []
unfolding list_for_device text_ltb
tied_jobs_left_out_example =
    tied_jobs_left_out "d9" 1 8 none (row_to_record at_noon_too ∷ []) "2026-01-01 12:00:00"
      (jobs (morning ∷ noon ∷ at_noon_too ∷ [])) refl
