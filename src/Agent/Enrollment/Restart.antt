-- ===== src/Agent/Enrollment/Restart.antt =====
-- What the program does when it is started again on the directory that an earlier start left.
use robot_fleet.Prelude.{
  ◌≡◌, ap, ◌∙◌, String, true, false, Option, none, some, List, ◌∷◌, arith, ok, err, is_ok, ◌>>=◌,
  is_some,
}
use robot_fleet.Agent.Error.{io}
use robot_fleet.Agent.Disk.{Disk, Fault, content, exists_file, read_to_string, write}
use robot_fleet.Agent.Enrollment.{
  World, EnrollResponse, is_provisioned, is_enrolled, load_device_cert, load_operational_creds,
  load_device_id, generate_csr, provision, enroll, first_phase, second_phase, start_up,
}

abbrev pub read : String → Disk → Option String
read name d = content name d.files

-- on a directory with all three files that the phases look for, nothing is asked of a service
start_up_ready :
    (w : World) (d : Disk) (cert key id : String)
    → is_some (read "device.pem" d) ≡ true
    → read "operational.pem" d ≡ some cert
    → read "operational.key" d ≡ some key
    → read "device-id" d ≡ some id
    → start_up w d ≡ (ok ((cert, key), id), d)
unfolding start_up first_phase second_phase is_provisioned is_enrolled exists_file
    load_operational_creds load_device_id read_to_string
start_up_ready w d cert key id p c k i = ground arith

-- without an id and with an operational certificate it fails, whatever the world answers
start_up_torn :
    (w : World) (d : Disk)
    → is_some (read "device.pem" d) ≡ true
    → is_some (read "operational.pem" d) ≡ true
    → read "device-id" d ≡ none
    → (is_ok (start_up w d).0 ≡ false) × ((start_up w d).1 ≡ d)
unfolding start_up first_phase second_phase is_provisioned is_enrolled exists_file
    load_operational_creds load_device_id read_to_string
start_up_torn w d p c i = ground arith

first_phase_ready :
    (w : World) (d : Disk)
    → is_ok (first_phase w d).0 ≡ true
    → is_some (read "device.pem" (first_phase w d).1) ≡ true
unfolding first_phase is_provisioned exists_file provision generate_csr write content ◌>>=◌
first_phase_ready w d h = ground arith

second_phase_keeps :
    (w : World) (d : Disk)
    → is_some (read "device.pem" d) ≡ true
    → is_some (read "device.pem" (second_phase w d).1) ≡ true
unfolding second_phase is_enrolled exists_file enroll generate_csr load_device_cert read_to_string
    write content ◌>>=◌
second_phase_keeps w d h = ground arith

pub start_up_reads :
    (w : World) (d : Disk) (cert key id : String)
    → (start_up w d).0 ≡ ok ((cert, key), id)
    → (is_ok (first_phase w d).0 ≡ true)
      × ((start_up w d).1 ≡ (second_phase w (first_phase w d).1).1)
      × (read "operational.pem" (start_up w d).1 ≡ some cert)
      × (read "operational.key" (start_up w d).1 ≡ some key)
      × (read "device-id" (start_up w d).1 ≡ some id)
unfolding start_up load_operational_creds load_device_id read_to_string ◌>>=◌
start_up_reads w d cert key id h = ground arith

-- Phases that led to the operational certificate, key and id lead to the same ones again on the directory
-- that they left, with no write, and whatever the two services, the key generator and the settings of the
-- phases (the token and the addresses) would be by then.
pub start_up_again :
    (w later : World) (d : Disk) (cert key id : String)
    → (start_up w d).0 ≡ ok ((cert, key), id)
    → start_up later (start_up w d).1 ≡ (ok ((cert, key), id), (start_up w d).1)
start_up_again w later d cert key id h =
    let (first, same, c, k, i) = start_up_reads w d cert key id h in
    let ready = second_phase_keeps w (first_phase w d).1 (first_phase_ready w d first) in
    start_up_ready later (start_up w d).1 cert key id
      (ap (λ t. is_some (read "device.pem" t)) same ∙ ready) c k i

-- An enrollment that is cut short at its last file cannot be repaired by a restart: if the device's
-- id could not be written, the operational certificate is there already, so that no later start
-- enrolls again, every one of them fails, and none changes the directory. The device is provisioned,
-- has no id yet, and the failed write did not open the file.
pub torn_enrollment_stays :
    (w later : World) (d : Disk) (key csr : String) (response : EnrollResponse) (f : Fault)
    (fs : List (Option Fault))
    → is_some (read "device.pem" d) ≡ true
    → read "device-id" d ≡ none
    → w.operational_key.key_pem ≡ ok key
    → w.operational_key.csr_pem ≡ ok csr
    → w.enrolled ≡ ok response
    → d.faults ≡ none ∷ none ∷ none ∷ some f ∷ fs
    → f.left ≡ none
    → let t = (enroll w d).1 in
      ((enroll w d).0 ≡ err (io f.text))
      × (is_ok (start_up later t).0 ≡ false)
      × ((start_up later t).1 ≡ t)
unfolding enroll generate_csr write content
torn_enrollment_stays w later d key csr response f fs p i k c r faults left =
    let (fails, same) =
      start_up_torn later (enroll w d).1 (ground arith) (ground arith) (ground arith) in
    (ground arith, fails, same)
