-- ===== src/Tests/StorageTests.antt =====
-- Uploads to an object store that is a function from keys to what they hold, at concrete inputs.
use robot_fleet.Prelude.{
  ℕ, ◌≡◌, refl, String, true, Option, none, some, [], ok, err, if◌then◌else◌, ◌==◌, arith, Result,
}
use robot_fleet.Prelude.Split.{is}
use robot_fleet.Prelude.Split.Joined.{Lacks}
use robot_fleet.Artifact.Storage.Keys.{slash}
use robot_fleet.Sql.{Conn}
use robot_fleet.Artifact.Registry.{Artifacts}
use robot_fleet.Artifact.Storage.{
  S3, S3Config, HeadError, MinioStore, object_exists, presign_upload, presign_download,
}
use robot_fleet.Artifact.Storage.Uploads.{
  Http, IsServed, uploads_kept_apart, slashed_models_collide,
}
use robot_fleet.Artifact.Server.{generate_upload_url}

abbrev head : Option ℕ → Result HeadError (Unit {0})
head none = err (record { is_not_found = some true; text = "not found" })
head (some n) = ok tt

abbrev s3 : S3
s3 = record {
  Client = S3Config;
  PresigningConfig = ℕ;
  Server = String → Option ℕ;
  from_conf = λ config. config;
  expires_in = λ seconds. ok seconds;
  put_object = λ client bucket key cfg. ok key;
  get_object = λ client bucket key cfg. ok key;
  head_object = λ client bucket key server. head (server key);
}

abbrev http : Http s3
http = record {
  Body = ℕ;
  put = λ uri body server key. if uri == key then some body else server key;
  get = λ uri server. server uri;
}

abbrev store : MinioStore s3
store = record {
  client = record {
    endpoint_url = "http://localhost:9000";
    access_key = "minioadmin";
    secret_key = "minioadmin";
    region = "us-east-1";
    force_path_style = true;
  };
  bucket = "robot-artifacts";
}

store-IsServed : IsServed s3 http store
store-IsServed = record {
  reads = λ key other uri uri' cfg cfg' body server h k. ground arith;
  heads = λ key other uri cfg body server h. ground arith;
}

-- the firmware 1.0.0 of one model is there
abbrev server : String → Option ℕ
server key = if key == "humanoid/1.0.0/firmware.bin" then some 7 else none

abbrev artifacts : Conn Artifacts
artifacts = record { tables = []; saved = none; faults = [] }

humanoid_plain : Lacks (is slash) "humanoid"
humanoid_plain = (refl, (refl, (refl, (refl, (refl, (refl, (refl, (refl, tt))))))))

uploads_kept_apart_example :
    (http.get "humanoid/1.0.0/firmware.bin" (http.put "humanoid/1.1.0/firmware.bin" 9 server)
      ≡ some 7)
    × (object_exists s3 store "humanoid/1.0.0/firmware.bin"
          (http.put "humanoid/1.1.0/firmware.bin" 9 server)
        ≡ ok true)
unfolding generate_upload_url presign_upload presign_download object_exists
uploads_kept_apart_example =
    uploads_kept_apart s3 http store store-IsServed "humanoid" "1.1.0" "humanoid" "1.0.0"
      "humanoid/1.1.0/firmware.bin" "humanoid/1.1.0/firmware.bin" "humanoid/1.0.0/firmware.bin" 60 9
      server artifacts humanoid_plain humanoid_plain refl refl

slashed_models_collide_example :
    http.get "arm/left/1.0.0/firmware.bin" (http.put "arm/left/1.0.0/firmware.bin" 9 server)
    ≡ some 9
unfolding generate_upload_url presign_upload presign_download
slashed_models_collide_example =
    slashed_models_collide s3 http store store-IsServed "arm" "left" "1.0.0"
      "arm/left/1.0.0/firmware.bin" "arm/left/1.0.0/firmware.bin" "arm/left/1.0.0/firmware.bin" 60 9
      server artifacts refl refl
