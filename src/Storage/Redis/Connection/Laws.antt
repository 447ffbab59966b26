-- ===== src/Storage/Redis/Connection/Laws.antt =====
-- When the connection of a Redis backend is opened, and that a backend with its connection is a server
-- as read and write want it: hitbox-redis/src/backend.rs.
use hitbox.Prelude.{ℕ, none, some, ◌≡◌, refl, arith, List, String}
use hitbox.Core.Value.{CacheValue}
use hitbox.Core.Response.{ok, err}
use hitbox.Composition.Error.{internal_error}
use hitbox.Composition.Envelope.{Raw}
use hitbox.Storage.Redis.{Command, write_commands, with_connection, read, write}
use hitbox.Storage.Redis.Laws.{Entry, run, reply_of, IsServer}
use hitbox.Storage.Redis.Builder.{
  SingleConfig, single, RedisBackendBuilder, RedisBackend, build, backend_of,
}
use hitbox.Storage.Redis.Connection.{
  Types, Driver, RedisConnection, on_single, on_cluster, connect, get_connection, client, Cell,
}

module _ {t : Types} {W Key C : Type 0} (d : Driver t W Key) where
  -- A builder whose mode is an address that does not parse builds a backend all the same. Each read
  -- and each write of that backend answers with the error of the parser, as an internal error, and
  -- leaves the backend as it was: without a connection, and with nothing sent.
  pub read-build_unparsed :
      (b : RedisBackendBuilder t.F C) (config : SingleConfig t.F) (e : String) (key : Key)
      (value : CacheValue Raw) (now : ℕ) (w : W)
      → b.mode ≡ some (single config)
      → d.parse config.url ≡ err e
      → (build b ≡ ok (backend_of (single config) b))
        × (read (client d (backend_of (single config) b)) key now (none, w)
            ≡ (err (internal_error e), (none, w)))
        × (write (client d (backend_of (single config) b)) key value now (none, w)
            ≡ (err (internal_error e), (none, w)))
  unfolding build client get_connection connect read write with_connection
  read-build_unparsed b config e key value now w mode bad =
      (ground (arith, mode), ground (arith, bad), ground (arith, bad))

  module _ (b : RedisBackend t.F C) where
    -- The connection that was opened once stays, and is given without a call of the client.
    pub get_connection-kept :
        (conn : RedisConnection t) (w : W)
        → (connect d b b.mode w).0 ≡ ok conn
        → get_connection d b (get_connection d b (none, w)).1
          ≡ (ok conn, (some conn, (connect d b b.mode w).1))
    unfolding get_connection
    get_connection-kept conn w h = ground (arith, h)

    -- A client that opens connections, and answers commands on each.
    pub record IsDriver (raw : Raw) (entry : W → Entry) : Type 0 where
      pub opened : W → RedisConnection t
      pub opens : (w : W) → (connect d b b.mode w).0 ≡ ok (opened w)
      pub open-entry : (w : W) → entry (connect d b b.mode w).1 ≡ entry w
      pub manager-reads :
          (m : t.Manager) (w : W) → (d.read_manager m raw w).0 ≡ ok (reply_of (entry w))
      pub cluster-reads :
          (m : t.Cluster) (w : W) → (d.read_cluster m raw w).0 ≡ ok (reply_of (entry w))
      pub manager-writes :
          (m : t.Manager) (cs : List Command) (w : W) → (d.write_manager m cs w).0 ≡ ok tt
      pub cluster-writes :
          (m : t.Cluster) (cs : List Command) (w : W) → (d.write_cluster m cs w).0 ≡ ok tt
      pub manager-entry :
          (m : t.Manager) (value : CacheValue Raw) (now : ℕ) (w : W)
          → entry (d.write_manager m (write_commands raw value now) w).1
            ≡ run (write_commands raw value now) (entry w)
      pub cluster-entry :
          (m : t.Cluster) (value : CacheValue Raw) (now : ℕ) (w : W)
          → entry (d.write_cluster m (write_commands raw value now) w).1
            ≡ run (write_commands raw value now) (entry w)

    module _ (raw : Raw) (entry : W → Entry) (driver : IsDriver raw entry) where
      abbrev given : Cell t W → RedisConnection t
      given (some conn, w) = conn
      given (none, w) = driver.opened w

      get_connection-given : (cell : Cell t W) → (get_connection d b cell).0 ≡ ok (given cell)
      unfolding get_connection
      get_connection-given (some conn, w) = refl
      get_connection-given (none, w) = ground (arith, driver.opens w)

      get_connection-entry : (cell : Cell t W) → entry (get_connection d b cell).1.1 ≡ entry cell.1
      unfolding get_connection
      get_connection-entry (some conn, w) = refl
      get_connection-entry (none, w) = ground (arith, driver.opens w, driver.open-entry w)

      reads :
          (conn : RedisConnection t) (cell : Cell t W)
          → ((client d b).query_read conn raw cell).0 ≡ ok (reply_of (entry cell.1))
      unfolding client
      reads (on_single m) (c, w) = driver.manager-reads m w
      reads (on_cluster m) (c, w) = driver.cluster-reads m w

      writes :
          (conn : RedisConnection t) (cs : List Command) (cell : Cell t W)
          → ((client d b).query_write conn cs cell).0 ≡ ok tt
      unfolding client
      writes (on_single m) cs (c, w) = driver.manager-writes m cs w
      writes (on_cluster m) cs (c, w) = driver.cluster-writes m cs w

      write-entry :
          (conn : RedisConnection t) (value : CacheValue Raw) (now : ℕ) (cell : Cell t W)
          → entry ((client d b).query_write conn (write_commands raw value now) cell).1.1
            ≡ run (write_commands raw value now) (entry cell.1)
      unfolding client
      write-entry (on_single m) value now (c, w) = driver.manager-entry m value now w
      write-entry (on_cluster m) value now (c, w) = driver.cluster-entry m value now w

      -- A backend that opens its connection at its first operation is, with it, a server as the laws
      -- of read and write want it, on a single node and on a cluster.
      pub client-IsServer : IsServer (client d b) raw (λ cell. entry cell.1)
      unfolding client
      client-IsServer = record {
        connection = given;
        connects = get_connection-given;
        connection-entry = get_connection-entry;
        writes = writes;
        write-entry = write-entry;
        reads = reads;
      }
