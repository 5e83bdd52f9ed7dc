-- ===== src/Service.antt =====
-- What the `main` of the three services has in common: the environment and the files that it reads, tonic's
-- TLS configuration, and the address that a server listens on. The operating system, tonic and the
-- parser of addresses are parameters; an error is the cause that anyhow reports.
use robot_fleet.Prelude.{String, Option, Result, map_err, unwrap_or}
use robot_fleet.Prelude.Outcome.{◌>>=◌, ok_or}

pub data StartError : Type 0 where
  not_set not_utf8 invalid : String → StartError
  io not_opened bad_tls : String → StartError

-- tonic's ServerTlsConfig
pub record ServerTlsConfig (Pem : Type 0) : Type 0 where
  pub identity : Pem × Pem
  pub client_ca_root : Option Pem

pub record Host : Type 1 where
  pub Bytes : Type 0
  pub SocketAddr : Type 0
  pub var : String → Option String
  pub read : String → Result String Bytes
  pub from_utf8 : Bytes → Option String
  pub as_bytes : String → Bytes
  pub parse : String → Option SocketAddr
  -- what `Server::builder().tls_config` says of a configuration
  pub tls_config : ServerTlsConfig Bytes → Result String (Unit {0})

module _ (host : Host) where
  open host use {Bytes, SocketAddr, var, read, from_utf8, parse, tls_config}

  -- one server: where it listens, whom it lets in, and the service that it was given
  pub record Listener (S : Type 0) : Type 0 where
    pub address : SocketAddr
    pub tls : ServerTlsConfig Bytes
    pub service : S

  abbrev pub env_or : String → String → String
  env_or key default = unwrap_or (var key) default

  abbrev pub env_required : String → Result StartError String
  env_required key = ok_or (not_set key) (var key)

  unfoldable pub read_env : String → Result StartError Bytes
  read_env key = do path ← env_required key; map_err io (read path)

  abbrev pub utf8 : String → Bytes → Result StartError String
  utf8 key bytes = ok_or (not_utf8 key) (from_utf8 bytes)

  -- `read_to_string`
  unfoldable pub read_env_to_string : String → Result StartError String
  unfolding read_env
  read_env_to_string key = do bytes ← read_env key; utf8 key bytes

  abbrev pub address_of : String → String → Result StartError SocketAddr
  address_of key text = ok_or (invalid key) (parse text)

  abbrev pub checked : ServerTlsConfig Bytes → Result StartError (Unit {0})
  checked tls = map_err bad_tls (tls_config tls)
