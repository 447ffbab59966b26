-- ===== src/Storage/Redis/Builder.antt =====
-- hitbox-redis/src/backend.rs: the modes of connection and the builder of a Redis backend. A duration
-- is a number of nanoseconds, and `F` the type of the base of the retries' delay, with 2.0 an argument.
-- The serializer that a builder starts with is a parameter.
use hitbox.Prelude.{ℕ, String, Bool, true, false, Option, none, some, List}
use hitbox.Core.Context.{BackendLabel}
use hitbox.Core.Response.{Result, ok, err}
use hitbox.Composition.Backend.Packed.{passthrough}
use hitbox.Key.Format.{CacheKeyFormat, bitcode}
use hitbox.Backend.{Format, Compressor}

pub record SingleConfig (F : Type 0) : Type 0 where
  pub url : String
  pub exponent_base : F

pub record ClusterConfig : Type 0 where
  pub nodes : List String
  pub read_from_replicas : Bool

pub data ConnectionMode (F : Type 0) : Type 0 where
  single : SingleConfig F → ConnectionMode F
  cluster : ClusterConfig → ConnectionMode F

-- `Error`, with the message of a `RedisError`.
pub data Error : Type 0 where
  redis : String → Error
  missing_connection_mode : Error

pub record RedisBackendBuilder (F C : Type 0) : Type 0 where
  pub mode : Option (ConnectionMode F)
  pub serializer : Format C
  pub key_format : CacheKeyFormat
  pub compressor : Compressor
  pub label : BackendLabel
  pub connection_timeout : Option ℕ
  pub response_timeout : Option ℕ
  pub number_of_retries : Option ℕ
  pub username : Option String
  pub password : Option String

-- The fields of a backend, but for the connection.
pub record RedisBackend (F C : Type 0) : Type 0 where
  pub mode : ConnectionMode F
  pub connection_timeout : Option ℕ
  pub response_timeout : Option ℕ
  pub number_of_retries : Option ℕ
  pub username : Option String
  pub password : Option String
  pub serializer : Format C
  pub key_format : CacheKeyFormat
  pub compressor : Compressor
  pub label : BackendLabel

module _ {F : Type 0} where
  unfoldable pub new_single : F → String → ConnectionMode F
  new_single two url = single (record { url = url; exponent_base = two })

  unfoldable pub new_cluster : List String → ConnectionMode F
  new_cluster nodes = cluster (record { nodes = nodes; read_from_replicas = false })

  unfoldable pub with_exponent_base : F → ConnectionMode F → ConnectionMode F
  with_exponent_base base (single config) = single (record config { exponent_base = base })
  with_exponent_base base (cluster config) = cluster config

  unfoldable pub with_read_from_replicas : ConnectionMode F → ConnectionMode F
  with_read_from_replicas (single config) = single config
  with_read_from_replicas (cluster config) = cluster (record config { read_from_replicas = true })

module _ {F C : Type 0} where
  unfoldable pub default_builder : Format C → RedisBackendBuilder F C
  default_builder bincode = record {
    mode = none;
    serializer = bincode;
    key_format = bitcode;
    compressor = passthrough;
    label = record { name = "redis" };
    connection_timeout = none;
    response_timeout = none;
    number_of_retries = none;
    username = none;
    password = none;
  }

  unfoldable pub with_mode : ConnectionMode F → RedisBackendBuilder F C → RedisBackendBuilder F C
  with_mode mode b = record b { mode = some mode }

  unfoldable pub with_connection_timeout : ℕ → RedisBackendBuilder F C → RedisBackendBuilder F C
  with_connection_timeout timeout b = record b { connection_timeout = some timeout }

  unfoldable pub with_response_timeout : ℕ → RedisBackendBuilder F C → RedisBackendBuilder F C
  with_response_timeout timeout b = record b { response_timeout = some timeout }

  unfoldable pub with_retries : ℕ → RedisBackendBuilder F C → RedisBackendBuilder F C
  with_retries count b = record b { number_of_retries = some count }

  unfoldable pub with_username : String → RedisBackendBuilder F C → RedisBackendBuilder F C
  with_username username b = record b { username = some username }

  unfoldable pub with_password : String → RedisBackendBuilder F C → RedisBackendBuilder F C
  with_password password b = record b { password = some password }

  unfoldable pub with_value_format :
      {C' : Type 0} → Format C' → RedisBackendBuilder F C → RedisBackendBuilder F C'
  with_value_format serializer b = record {
    mode = b.mode;
    serializer = serializer;
    key_format = b.key_format;
    compressor = b.compressor;
    label = b.label;
    connection_timeout = b.connection_timeout;
    response_timeout = b.response_timeout;
    number_of_retries = b.number_of_retries;
    username = b.username;
    password = b.password;
  }

  unfoldable pub with_key_format :
      CacheKeyFormat → RedisBackendBuilder F C → RedisBackendBuilder F C
  with_key_format format b = record b { key_format = format }

  unfoldable pub with_label : BackendLabel → RedisBackendBuilder F C → RedisBackendBuilder F C
  with_label label b = record b { label = label }

  unfoldable pub with_compressor : Compressor → RedisBackendBuilder F C → RedisBackendBuilder F C
  with_compressor compressor b = record b { compressor = compressor }

  abbrev pub backend_of : ConnectionMode F → RedisBackendBuilder F C → RedisBackend F C
  backend_of mode b = record {
    mode = mode;
    connection_timeout = b.connection_timeout;
    response_timeout = b.response_timeout;
    number_of_retries = b.number_of_retries;
    username = b.username;
    password = b.password;
    serializer = b.serializer;
    key_format = b.key_format;
    compressor = b.compressor;
    label = b.label;
  }

  -- `self.mode.ok_or(Error::MissingConnectionMode)?`
  abbrev pub ok_or :
      Option (ConnectionMode F) → RedisBackendBuilder F C → Result Error (RedisBackend F C)
  ok_or none b = err missing_connection_mode
  ok_or (some mode) b = ok (backend_of mode b)

  unfoldable pub build : RedisBackendBuilder F C → Result Error (RedisBackend F C)
  build b = ok_or b.mode b
