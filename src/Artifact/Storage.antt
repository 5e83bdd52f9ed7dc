-- ===== src/Artifact/Storage.antt =====
-- artifact-store/src/storage/mod.rs: the object store. The S3 client is a parameter: `Server` is what the
-- other end holds, and an error of the client is its text, with what `as_service_error` says of it.
pub mod Keys
pub mod Uploads
use robot_fleet.Prelude.{
  ℕ, String, Bool, true, false, Option, Result, ok, err, map_err, unwrap_or, if◌then◌else◌,
}
use robot_fleet.Prelude.Outcome.{◌>>=◌}
use robot_fleet.Artifact.Error.{Error, storage}

pub record S3Config : Type 0 where
  pub endpoint_url : String
  pub access_key : String
  pub secret_key : String
  pub region : String
  pub force_path_style : Bool

pub record HeadError : Type 0 where
  pub is_not_found : Option Bool
  pub text : String

pub record S3 : Type 1 where
  pub Client : Type 0
  pub PresigningConfig : Type 0
  pub Server : Type 0
  pub from_conf : S3Config → Client
  pub expires_in : ℕ → Result String PresigningConfig
  -- the URIs of put_object and get_object for a bucket and a key, presigned
  pub put_object : Client → String → String → PresigningConfig → Result String String
  pub get_object : Client → String → String → PresigningConfig → Result String String
  pub head_object : Client → String → String → Server → Result HeadError (Unit {0})

module _ (s3 : S3) where
  pub record MinioStore : Type 0 where
    pub client : s3.Client
    pub bucket : String

  abbrev pub s3_config : String → String → String → S3Config
  s3_config endpoint access_key secret_key = record {
    endpoint_url = endpoint;
    access_key = access_key;
    secret_key = secret_key;
    region = "us-east-1";
    force_path_style = true;
  }

  abbrev pub new_store : String → String → String → String → MinioStore
  new_store endpoint access_key secret_key bucket = record {
    client = s3.from_conf (s3_config endpoint access_key secret_key);
    bucket = bucket;
  }

  unfoldable pub presign_upload : MinioStore → String → ℕ → Result Error String
  presign_upload store key expires_secs = do
    cfg ← map_err storage (s3.expires_in expires_secs)
    map_err storage (s3.put_object store.client store.bucket key cfg)

  unfoldable pub presign_download : MinioStore → String → ℕ → Result Error String
  presign_download store key expires_secs = do
    cfg ← map_err storage (s3.expires_in expires_secs)
    map_err storage (s3.get_object store.client store.bucket key cfg)

  abbrev pub existence : Result HeadError (Unit {0}) → Result Error Bool
  existence (ok u) = ok true
  existence (err e) = if unwrap_or e.is_not_found false then ok false else err (storage e.text)

  unfoldable pub object_exists : MinioStore → String → s3.Server → Result Error Bool
  object_exists store key server = existence (s3.head_object store.client store.bucket key server)
