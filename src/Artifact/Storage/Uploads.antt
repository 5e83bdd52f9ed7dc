-- ===== src/Artifact/Storage/Uploads.antt =====
-- Where the firmware goes that is sent to the URL of generate_upload_url, and who reads it.
use robot_fleet.Prelude.{
  ℕ, ◌≡◌, refl, String, true, Option, some, arith, ok, ◌&&◌, ◌==◌, eq_iff, if◌then◌else◌, map_err,
  ◌∙◌,
}
use robot_fleet.Prelude.Outcome.{>>=-eq-ok}
use robot_fleet.Prelude.Results.Inversion.{map_err-eq-ok}
use robot_fleet.Prelude.Split.{is}
use robot_fleet.Prelude.Split.Joined.{Lacks}
use robot_fleet.Sql.{Conn}
use robot_fleet.Artifact.Error.{storage}
use robot_fleet.Artifact.Registry.{Artifacts}
use robot_fleet.Artifact.Server.{object_key, generate_upload_url}
use robot_fleet.Artifact.Storage.{S3, MinioStore, presign_upload, presign_download, object_exists}
use robot_fleet.Artifact.Storage.Keys.{slash, joined, object_key-joined, object_key-test}

-- what a PUT to a URI makes of the object store, and what a GET reads
pub record Http (s3 : S3) : Type 1 where
  pub Body : Type 0
  pub put : String → Body → s3.Server → s3.Server
  pub get : String → s3.Server → Option Body

module _ (s3 : S3) (http : Http s3) (store : MinioStore s3) where
  -- What S3 documents of presigned URIs, while they are valid, and of HEAD: a PUT sets the object of its
  -- bucket and key, and no other one.
  pub record IsServed : Type 0 where
    pub reads :
        (key other uri uri' : String) (cfg cfg' : s3.PresigningConfig) (body : http.Body)
        (server : s3.Server)
        → s3.put_object store.client store.bucket key cfg ≡ ok uri
        → s3.get_object store.client store.bucket other cfg' ≡ ok uri'
        → http.get uri' (http.put uri body server)
          ≡ (if key == other then some body else http.get uri' server)
    pub heads :
        (key other uri : String) (cfg : s3.PresigningConfig) (body : http.Body) (server : s3.Server)
        → s3.put_object store.client store.bucket key cfg ≡ ok uri
        → s3.head_object store.client store.bucket other (http.put uri body server)
          ≡ (if key == other then ok tt else s3.head_object store.client store.bucket other server)

  presign_upload_uri :
      (key uri : String) (n : ℕ)
      → presign_upload s3 store key n ≡ ok uri
      → (cfg : s3.PresigningConfig) × (s3.put_object store.client store.bucket key cfg ≡ ok uri)
  unfolding presign_upload
  presign_upload_uri key uri n h =
      let (cfg, e, k) = >>=-eq-ok (map_err storage (s3.expires_in n)) _ h in
      (cfg, map_err-eq-ok storage _ k)

  presign_download_uri :
      (key uri : String) (n : ℕ)
      → presign_download s3 store key n ≡ ok uri
      → (cfg : s3.PresigningConfig) × (s3.get_object store.client store.bucket key cfg ≡ ok uri)
  unfolding presign_download
  presign_download_uri key uri n h =
      let (cfg, e, k) = >>=-eq-ok (map_err storage (s3.expires_in n)) _ h in
      (cfg, map_err-eq-ok storage _ k)

  -- the URL is that of the key
  generate_upload_url_uri :
      (model version url key : String) (c : Conn Artifacts)
      → (generate_upload_url (presign_upload s3 store) model version c).0 ≡ ok (url, key)
      → presign_upload s3 store (object_key model version) 3600 ≡ ok url
  unfolding generate_upload_url
  generate_upload_url_uri model version url key c h = ground arith

  module _ (served : IsServed) where
    put-get :
        (key other uri uri' : String) (n n' : ℕ) (body : http.Body) (server : s3.Server)
        → presign_upload s3 store key n ≡ ok uri
        → presign_download s3 store other n' ≡ ok uri'
        → http.get uri' (http.put uri body server)
          ≡ (if key == other then some body else http.get uri' server)
    put-get key other uri uri' n n' body server h k =
        let (cfg, up) = presign_upload_uri key uri n h in
        let (cfg', down) = presign_download_uri other uri' n' k in
        served.reads key other uri uri' cfg cfg' body server up down

    put-exists :
        (key other uri : String) (n : ℕ) (body : http.Body) (server : s3.Server)
        → presign_upload s3 store key n ≡ ok uri
        → object_exists s3 store other (http.put uri body server)
          ≡ (if key == other then ok true else object_exists s3 store other server)
    unfolding object_exists
    put-exists key other uri n body server h =
        let (cfg, up) = presign_upload_uri key uri n h in
        ground (arith, served.heads key other uri cfg body server up)

    -- What a client sends to the URL for a version of a model is what every URL for downloading that
    -- version reads from then on, and the object is said to exist; what is read of every other version
    -- or model, and what is said of it, is as before. No name of a model has a slash, and S3 serves
    -- presigned URLs as it documents.
    pub uploads_kept_apart :
        (model version model' version' url key uri : String) (expires_secs : ℕ) (body : http.Body)
        (server : s3.Server) (c : Conn Artifacts)
        → Lacks (is slash) model
        → Lacks (is slash) model'
        → (generate_upload_url (presign_upload s3 store) model version c).0 ≡ ok (url, key)
        → presign_download s3 store (object_key model' version') expires_secs ≡ ok uri
        → (http.get uri (http.put url body server) ≡ (
            if (model == model') && (version == version') then some body else http.get uri server))
          × (object_exists s3 store (object_key model' version') (http.put url body server) ≡ (
              if (model == model') && (version == version')
              then ok true
              else object_exists s3 store (object_key model' version') server))
    uploads_kept_apart m v m' v' url key uri n body server c plain plain' h k =
        let up = generate_upload_url_uri m v url key c h in
        rw (← (object_key-test m v m' v' plain plain')) (
          put-get (object_key m v) (object_key m' v') url uri 3600 n body server up k,
          put-exists (object_key m v) (object_key m' v') url 3600 body server up,
        )

    -- A slash lets versions of different models overwrite one another: what is sent to the URL for a
    -- version of the model `a/b` is what is read as the version `b/…` of the model `a`.
    pub slashed_models_collide :
        (model part version url key uri : String) (expires_secs : ℕ) (body : http.Body)
        (server : s3.Server) (c : Conn Artifacts)
        → (generate_upload_url (presign_upload s3 store) (joined model part) version c).0
          ≡ ok (url, key)
        → presign_download s3 store (object_key model (joined part version)) expires_secs ≡ ok uri
        → http.get uri (http.put url body server) ≡ some body
    slashed_models_collide m part v url key uri n body server c h k =
        let up = generate_upload_url_uri (joined m part) v url key c h in
        let own = object_key (joined m part) v in
        let other = object_key m (joined part v) in
        put-get own other url uri 3600 n body server up k
        ∙ rw ((eq_iff own other).1 (object_key-joined m part v)) refl
