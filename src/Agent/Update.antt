-- ===== src/Agent/Update.antt =====
-- robot-agent/src/ota.rs: one stream of update commands. The tools of a `Machine` are parameters:
-- reqwest, sha2, tempfile and the commands tar and bash; their errors stand for their texts. The state
-- is the list of the archives whose install.sh was run, newest first.
pub mod Installs
pub mod Cycle
use robot_fleet.Prelude.{
  ℕ, String, Bool, true, false, Option, none, some, List, [], ◌∷◌, ◌&&◌, ◌==◌, not, Result, ok, err,
  map_err, Method, pure, fail, lift, ◌>>=◌, ◌>>◌, if◌then◌else◌,
}
use robot_fleet.Prelude.Text.{format}
use robot_fleet.Agent.Error.{Error, checksum, install, io, display}

pub record Machine : Type 1 where
  pub Bytes : Type 0
  -- TempDir::new
  pub temp_dir : Result String (Unit {0})
  -- reqwest::get, and bytes() of the response
  pub get : String → Result String (Result String Bytes)
  -- hex::encode (Sha256::digest …)
  pub sha256 : Bytes → String
  -- tokio::fs::write of the archive, create_dir_all of the staging directory
  pub save : Bytes → Result String (Unit {0})
  pub staging : Result String (Unit {0})
  -- tar's status: whether it succeeded
  pub extract : Bytes → Result String Bool
  pub has_install_script : Bytes → Bool
  -- bash could be started; its exit code is 0 on success
  pub start_script : Bytes → Result String (Unit {0})
  pub exit_code : Bytes → String

pub record UpdateCommand : Type 0 where
  pub update_job_id : String
  pub target_version : String
  pub artifact_url : String
  pub sha256 : String

pub record AckUpdateRequest : Type 0 where
  pub update_job_id : String
  pub device_id : String
  pub success : Bool
  pub error_message : String
  pub version : String

module _ (m : Machine) where
  abbrev pub Installed : Type 0
  Installed = List m.Bytes

  abbrev ran : Result Error (Unit {0}) → m.Bytes → Method Installed Error (Unit {0})
  ran (err e) bytes s = (err e, s)
  ran (ok u) bytes s = (ok tt, bytes ∷ s)

  -- runs install.sh and returns its exit code
  unfoldable pub run_script : m.Bytes → Method Installed Error String
  unfolding ◌>>=◌
  run_script bytes = do ran (map_err io (m.start_script bytes)) bytes; pure (m.exit_code bytes)

  unfoldable pub apply_update : String → String → Method Installed Error (Unit {0})
  unfolding run_script ◌>>=◌
  apply_update artifact_url expected_sha256 = do
    lift (map_err io m.temp_dir)
    response ←
        lift (map_err (λ e. install (format ("download failed: " ∷ e ∷ []))) (m.get artifact_url))
    bytes ← lift (map_err (λ e. install (format ("read body failed: " ∷ e ∷ []))) response)
    if not (expected_sha256 == "") && not (m.sha256 bytes == expected_sha256)
        then fail (checksum expected_sha256 (m.sha256 bytes))
        else pure tt
    lift (map_err io (m.save bytes))
    lift (map_err io m.staging)
    extracted ← lift (map_err io (m.extract bytes))
    if extracted then pure tt else fail (install "tar extraction failed")
    if m.has_install_script bytes
        then pure tt
        else fail (install "install.sh not found in artifact")
    code ← run_script bytes
    if code == "0"
        then pure tt
        else fail (install (format ("install.sh exited with: " ∷ code ∷ [])))

  abbrev pub acknowledgement : String → UpdateCommand → Result Error (Unit {0}) → AckUpdateRequest
  acknowledgement device_id cmd (ok u) = record {
    update_job_id = cmd.update_job_id;
    device_id = device_id;
    success = true;
    error_message = "";
    version = cmd.target_version;
  }
  acknowledgement device_id cmd (err e) = record {
    update_job_id = cmd.update_job_id;
    device_id = device_id;
    success = false;
    error_message = display e;
    version = "";
  }

  -- what the stream yields, each command with the answer that its acknowledgement gets
  abbrev pub Commands : Type 0
  Commands = List (Result Error UpdateCommand × Result Error (Unit {0}))

  abbrev pub acknowledge :
      AckUpdateRequest
      → Result Error (Unit {0})
      → Result Error (Unit {0}) × (List AckUpdateRequest × Installed)
      → Installed
      → Result Error (Unit {0}) × (List AckUpdateRequest × Installed)
  acknowledge ack (err e) later s = (err e, (ack ∷ [], s))
  acknowledge ack (ok u) (r, (acks, t)) s = (r, (ack ∷ acks, t))

  -- the loop: its result, the acknowledgements sent and the archives installed
  unfoldable pub run_stream :
      String → Commands → Installed → Result Error (Unit {0}) × (List AckUpdateRequest × Installed)
  run_stream device_id [] s = (ok tt, ([], s))
  run_stream device_id ((err e, answer) ∷ rest) s = (err e, ([], s))
  run_stream device_id ((ok cmd, answer) ∷ rest) s =
      let applied = apply_update cmd.artifact_url cmd.sha256 s in
      let later = run_stream device_id rest applied.1 in
      acknowledge (acknowledgement device_id cmd applied.0) answer later applied.1
