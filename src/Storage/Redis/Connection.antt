-- ===== src/Storage/Redis/Connection.antt =====
-- hitbox-redis/src/backend.rs: the connection of a Redis backend, which its first operation opens. The
-- client of the crate redis is a parameter, which works on a state `W`; the cell of the connection
-- stands beside it, and holds what the first success gave. Operations follow each other.
pub mod Laws
mod Tests
use hitbox.Prelude.{ℕ, ◌%◌, ◌^◌, String, Bool, true, false, Option, none, some, List}
use hitbox.Core.Response.{Result, ok, err}
use hitbox.Composition.Error.{BackendError}
use hitbox.Composition.Task.{Task}
use hitbox.Composition.Envelope.{Raw}
use hitbox.Key.Format.{CacheKeyFormat}
use hitbox.Storage.Redis.{Client, Command, Reply}
use hitbox.Storage.Redis.Builder.{
  SingleConfig, ClusterConfig, ConnectionMode, single, cluster, RedisBackend,
}

-- The types of the crate redis.
pub record Types : Type 1 where
  pub F : Type 0
  pub Info : Type 0  -- `ConnectionInfo`
  pub Settings : Type 0  -- `RedisConnectionInfo`
  pub Opened : Type 0  -- `Client`
  pub ManagerConfig : Type 0  -- `ConnectionManagerConfig`
  pub Manager : Type 0  -- `ConnectionManager`
  pub ClusterBuilder : Type 0  -- `ClusterClientBuilder`
  pub ClusterClient : Type 0
  pub Cluster : Type 0  -- `ClusterConnection`

pub data RedisConnection (t : Types) : Type 0 where
  on_single : t.Manager → RedisConnection t
  on_cluster : t.Cluster → RedisConnection t

-- The calls of the crate redis, an error being its message, and the format of keys.
pub record Driver (t : Types) (W Key : Type 0) : Type 0 where
  pub parse : String → Result String t.Info
  pub redis_settings : t.Info → t.Settings
  pub set_username : String → t.Settings → t.Settings
  pub set_password : String → t.Settings → t.Settings
  pub set_redis_settings : t.Settings → t.Info → t.Info
  pub open_client : t.Info → Result String t.Opened
  pub new_config : t.ManagerConfig
  pub set_exponent_base : t.F → t.ManagerConfig → t.ManagerConfig
  pub set_connection_timeout : ℕ → t.ManagerConfig → t.ManagerConfig
  pub set_response_timeout : ℕ → t.ManagerConfig → t.ManagerConfig
  pub set_number_of_retries : ℕ → t.ManagerConfig → t.ManagerConfig
  pub get_manager : t.Opened → t.ManagerConfig → Task W (Result String t.Manager)
  pub new_builder : List String → t.ClusterBuilder
  pub read_from_replicas : t.ClusterBuilder → t.ClusterBuilder
  pub username : String → t.ClusterBuilder → t.ClusterBuilder
  pub password : String → t.ClusterBuilder → t.ClusterBuilder
  pub connection_timeout : ℕ → t.ClusterBuilder → t.ClusterBuilder
  pub response_timeout : ℕ → t.ClusterBuilder → t.ClusterBuilder
  pub retries : ℕ → t.ClusterBuilder → t.ClusterBuilder
  pub build_cluster : t.ClusterBuilder → Result String t.ClusterClient
  pub get_cluster : t.ClusterClient → Task W (Result String t.Cluster)
  pub serialize : CacheKeyFormat → Key → Result BackendError Raw
  pub read_manager : t.Manager → Raw → Task W (Result String ((Option Raw × Option ℕ) × Reply))
  pub read_cluster : t.Cluster → Raw → Task W (Result String ((Option Raw × Option ℕ) × Reply))
  pub write_manager : t.Manager → List Command → Task W (Result String (Unit {0}))
  pub write_cluster : t.Cluster → List Command → Task W (Result String (Unit {0}))
  pub del_manager : t.Manager → Raw → Task W (Result String ℕ)
  pub del_cluster : t.Cluster → Raw → Task W (Result String ℕ)

-- `if let Some(a) = option { b = set(b, a) }`
abbrev pub if_some : {A B : Type 0} → Option A → (A → B → B) → B → B
if_some none set b = b
if_some (some a) set b = set a b

abbrev pub if_true : {B : Type 0} → Bool → (B → B) → B → B
if_true true set b = set b
if_true false set b = b

-- The cell of the connection, and the state of the client.
abbrev pub Cell : Types → Type 0 → Type 0
Cell t W = Option (RedisConnection t) × W

-- The `?` of a call that has no effect.
abbrev pub and_then :
    {A B W : Type 0} → Result String A → (A → Task W (Result String B)) → Task W (Result String B)
and_then (ok a) rest w = rest a w
and_then (err e) rest w = (err e, w)

module _ (t : Types) {W : Type 0} where
  abbrev pub single_of : Result String t.Manager × W → Result String (RedisConnection t) × W
  single_of (ok conn, w) = (ok (on_single conn), w)
  single_of (err e, w) = (err e, w)

  abbrev pub cluster_of : Result String t.Cluster × W → Result String (RedisConnection t) × W
  cluster_of (ok conn, w) = (ok (on_cluster conn), w)
  cluster_of (err e, w) = (err e, w)

  abbrev pub initialised :
      Result String (RedisConnection t) × W → Result String (RedisConnection t) × Cell t W
  initialised (ok conn, w) = (ok conn, (some conn, w))
  initialised (err e, w) = (err e, (none, w))

  abbrev pub keep : {A : Type 0} → Option (RedisConnection t) → A × W → A × Cell t W
  keep cell (a, w) = (a, (cell, w))

module _ {t : Types} {W Key C : Type 0} (d : Driver t W Key) (b : RedisBackend t.F C) where
  abbrev with_settings : t.Info → t.Info
  with_settings info =
      d.set_redis_settings
        (if_some b.password d.set_password
          (if_some b.username d.set_username (d.redis_settings info)))
        info

  abbrev manager_config : t.F → t.ManagerConfig
  manager_config base = if_some b.number_of_retries d.set_number_of_retries (
      if_some b.response_timeout d.set_response_timeout (
        if_some b.connection_timeout d.set_connection_timeout
          (d.set_exponent_base base d.new_config)))

  abbrev cluster_builder : ClusterConfig → t.ClusterBuilder
  cluster_builder config =
      if_some b.number_of_retries (λ n. d.retries (n % 2 ^ 32))
        (if_some b.response_timeout d.response_timeout (
          if_some b.connection_timeout d.connection_timeout (
            if_some b.password d.password (
              if_some b.username d.username (
                if_true config.read_from_replicas d.read_from_replicas
                  (d.new_builder config.nodes))))))

  -- The future that the cell is initialised with.
  unfoldable pub connect : ConnectionMode t.F → Task W (Result String (RedisConnection t))
  connect (single config) w =
      and_then (d.parse config.url)
        (λ info. and_then (d.open_client (with_settings info)) (λ client w1.
          single_of t (d.get_manager client (manager_config config.exponent_base) w1)))
        w
  connect (cluster config) w =
      and_then (d.build_cluster (cluster_builder config))
        (λ client w1. cluster_of t (d.get_cluster client w1)) w

  -- `OnceCell::get_or_try_init`: a cell that is set is given as it is.
  unfoldable pub get_connection : Task (Cell t W) (Result String (RedisConnection t))
  unfolding connect
  get_connection (some conn, w) = (ok conn, (some conn, w))
  get_connection (none, w) = initialised t (connect b.mode w)

  -- `RedisConnection::query_pipeline` and `query_cmd`, on the copy of the connection that an operation
  -- has made.
  abbrev pub query :
      {A : Type 0}
      → (t.Manager → Task W (Result String A))
      → (t.Cluster → Task W (Result String A))
      → RedisConnection t
      → Task (Cell t W) (Result String A)
  query manager cluster_ (on_single conn) (cell, w) = keep t cell (manager conn w)
  query manager cluster_ (on_cluster conn) (cell, w) = keep t cell (cluster_ conn w)

  -- The calls that read, write and remove make.
  unfoldable pub client : Client (Cell t W) Key (RedisConnection t)
  unfolding get_connection
  client = record {
    serialize = d.serialize b.key_format;
    get_connection = get_connection;
    query_read = λ conn key. query (λ m. d.read_manager m key) (λ m. d.read_cluster m key) conn;
    query_write = λ conn cs. query (λ m. d.write_manager m cs) (λ m. d.write_cluster m cs) conn;
    query_del = λ conn key. query (λ m. d.del_manager m key) (λ m. d.del_cluster m key) conn;
  }
