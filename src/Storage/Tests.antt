-- ===== src/Storage/Tests.antt =====
-- A toy of the Redis server: its state is the entry of the one key.
use hitbox.Prelude.{String, none, some, [], ◌∷◌, ◌≡◌, refl}
use hitbox.Core.Value.{CacheValue, ttl}
use hitbox.Core.Response.{ok}
use hitbox.Composition.Envelope.{Raw}
use hitbox.Storage.Redis.{Client, from_millis, read, write}
use hitbox.Storage.Redis.Laws.{Entry, run, reply_of, IsServer, new_expiry, read-write_redis}

abbrev toy : Client Entry String (Unit {0})
toy = record {
  serialize = λ key. ok (1 ∷ []);
  get_connection = λ w. (ok tt, w);
  query_read = λ conn key w. (ok (reply_of w), w);
  query_write = λ conn cs w. (ok tt, run cs w);
  query_del = λ conn key w. (ok 1, w);
}

toy-IsServer : IsServer toy (1 ∷ []) (λ w. w)
toy-IsServer = record {
  connection = λ w. tt;
  connects = λ w. refl;
  connection-entry = λ w. refl;
  writes = λ conn cs w. refl;
  write-entry = λ conn value now w. refl;
  reads = λ conn w. refl;
}

-- A value without instants is written over one that grows stale and expires.
abbrev former : Entry
former = record { d = some (7 ∷ []); s = some 5; left = some 2_000 }

abbrev value : CacheValue Raw
value = record { data_ = 8 ∷ []; expire = none; stale_at = none }

read-write_redis_example :
    (read toy "key" 1_000 (write toy "key" value 1_000 former).1).0
    ≡ ok (
        some (record {
          data_ = 8 ∷ [];
          expire = new_expiry 1_000 (ttl value 1_000) (some 2_000);
          stale_at = from_millis (some 5);
        }))
read-write_redis_example =
    read-write_redis toy (1 ∷ []) (λ w. w) toy-IsServer "key" refl 1_000 value former
