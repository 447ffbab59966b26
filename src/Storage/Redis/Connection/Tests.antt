-- ===== src/Storage/Redis/Connection/Tests.antt =====
-- A toy of the crate redis, of which every type is the numbers: it parses no address.
use hitbox.Prelude.{ℕ, ◌+◌, none, [], ◌∷◌, ◌≡◌, refl}
use hitbox.Core.Value.{CacheValue}
use hitbox.Core.Response.{ok, err}
use hitbox.Composition.Error.{internal_error}
use hitbox.Composition.Envelope.{Raw}
use hitbox.Backend.{Format}
use hitbox.Storage.Redis.{read, write, millis}
use hitbox.Storage.Redis.Builder.{
  SingleConfig, single, RedisBackendBuilder, build, backend_of, default_builder, with_mode,
}
use hitbox.Storage.Redis.Connection.{Types, Driver, client}
use hitbox.Storage.Redis.Connection.Laws.{read-build_unparsed}

abbrev numbers : Types
numbers = record {
  F = ℕ;
  Info = ℕ;
  Settings = ℕ;
  Opened = ℕ;
  ManagerConfig = ℕ;
  Manager = ℕ;
  ClusterBuilder = ℕ;
  ClusterClient = ℕ;
  Cluster = ℕ;
}

abbrev toy : Driver numbers ℕ ℕ
toy = record {
  parse = λ url. err "invalid address";
  redis_settings = λ info. info;
  set_username = λ name n. n;
  set_password = λ word n. n;
  set_redis_settings = λ settings info. settings;
  open_client = λ info. ok info;
  new_config = 0;
  set_exponent_base = λ base n. base;
  set_connection_timeout = λ timeout n. n;
  set_response_timeout = λ timeout n. n;
  set_number_of_retries = λ count n. n;
  get_manager = λ opened n w. (ok opened, w + 1);
  new_builder = λ nodes. 0;
  read_from_replicas = λ n. n;
  username = λ name n. n;
  password = λ word n. n;
  connection_timeout = λ timeout n. n;
  response_timeout = λ timeout n. n;
  retries = λ count n. n;
  build_cluster = λ n. ok n;
  get_cluster = λ n w. (ok n, w + 1);
  serialize = λ format key. ok (key ∷ []);
  read_manager = λ m key w. (ok ((none, none), millis 0), w + 1);
  read_cluster = λ m key w. (ok ((none, none), millis 0), w + 1);
  write_manager = λ m cs w. (ok tt, w + 1);
  write_cluster = λ m cs w. (ok tt, w + 1);
  del_manager = λ m key w. (ok 0, w + 1);
  del_cluster = λ m key w. (ok 0, w + 1);
}

abbrev address : SingleConfig ℕ
address = record { url = "not-a-valid-url"; exponent_base = 2 }

-- A format that encodes nothing.
abbrev silent : Format ℕ
silent = record {
  with_serializer = λ n ctx. ok [];
  with_deserializer = λ raw ctx. (err "empty", none, ctx);
  format_type_id = 0;
}

abbrev unparsed : RedisBackendBuilder ℕ ℕ
unfolding with_mode default_builder
unparsed = with_mode (single address) (default_builder silent)

abbrev value : CacheValue Raw
value = record { data_ = 7 ∷ []; expire = none; stale_at = none }

read-build_unparsed_example :
    (build unparsed ≡ ok (backend_of (single address) unparsed))
    × (read (client toy (backend_of (single address) unparsed)) 3 1_000 (none, 0)
        ≡ (err (internal_error "invalid address"), (none, 0)))
    × (write (client toy (backend_of (single address) unparsed)) 3 value 1_000 (none, 0)
        ≡ (err (internal_error "invalid address"), (none, 0)))
unfolding unparsed with_mode
read-build_unparsed_example =
    read-build_unparsed toy unparsed address "invalid address" 3 value 1_000 0 refl refl
