-- ===== src/Storage/Redis.antt =====
-- hitbox-redis/src/backend.rs: a value in Redis is a hash with the fields `d` for the data and `s`
-- for the instant of staleness in milliseconds, and its expiry is that of the key. The server is a
-- parameter that works on a state `W`, and so is the connection.
pub mod Builder
pub mod Connection
pub mod Laws
use hitbox.Prelude.{ℕ, zero, suc, ◌+◌, ◌*◌, ◌/◌, String, Option, none, some, List, [], ◌∷◌}
use hitbox.Core.Value.{CacheValue, ttl}
use hitbox.Core.Response.{Result, ok, err}
use hitbox.Composition.Error.{BackendError, internal_error}
use hitbox.Composition.Task.{Task}
use hitbox.Composition.Write.{Written}
use hitbox.Composition.Envelope.{Raw}
use hitbox.Backend.{DeleteStatus, deleted, missing}

-- The reply of `PTTL`: a number of milliseconds, or a negative number.
pub data Reply : Type 0 where
  millis : ℕ → Reply
  negative : ℕ → Reply

-- The commands of a pipeline that writes: `HSET key d data [s stale]` and `EXPIRE key seconds`.
pub data Command : Type 0 where
  hset : Raw → Raw → Option ℕ → Command
  expire_in : Raw → ℕ → Command

-- The calls of the client, on a connection of the type `Conn`. The read pipeline is `HMGET key d s` with `PTTL key`.
pub record Client (W Key Conn : Type 0) : Type 0 where
  pub serialize : Key → Result BackendError Raw
  pub get_connection : Task W (Result String Conn)
  pub query_read : Conn → Raw → Task W (Result String ((Option Raw × Option ℕ) × Reply))
  pub query_write : Conn → List Command → Task W (Result String (Unit {0}))
  pub query_del : Conn → Raw → Task W (Result String ℕ)

abbrev pub nanos_per_milli : ℕ
nanos_per_milli = 1_000_000

abbrev pub option_map : {A B : Type 0} → (A → B) → Option A → Option B
option_map f none = none
option_map f (some a) = some (f a)

-- `(pttl > 0).then(|| Utc::now() + ...)`
abbrev pub expiry : ℕ → Reply → Option ℕ
expiry now (millis zero) = none
expiry now (millis (suc n)) = some (now + suc n * nanos_per_milli)
expiry now (negative n) = none

-- `stale_ms.and_then(DateTime::from_timestamp_millis)`, whose milliseconds are in range.
abbrev pub from_millis : Option ℕ → Option ℕ
from_millis ms = option_map (λ n. n * nanos_per_milli) ms

-- `stale.timestamp_millis()`
abbrev pub to_millis : Option ℕ → Option ℕ
to_millis t = option_map (λ n. n / nanos_per_milli) t

abbrev pub Found : Type 0
Found = Result BackendError (Option (CacheValue Raw))

abbrev pub read_reply : ℕ → (Option Raw × Option ℕ) × Reply → Option (CacheValue Raw)
read_reply now ((none, stale_ms), pttl) = none
read_reply now ((some raw, stale_ms), pttl) =
    some (record { data_ = raw; expire = expiry now pttl; stale_at = from_millis stale_ms })

abbrev pub found : ℕ → Result String ((Option Raw × Option ℕ) × Reply) → Found
found now (err e) = err (internal_error e)
found now (ok reply) = ok (read_reply now reply)

abbrev pub written : Result String (Unit {0}) → Written
written (ok u) = ok tt
written (err e) = err (internal_error e)

-- `if deleted > 0`
abbrev pub delete_status : ℕ → DeleteStatus
delete_status zero = missing
delete_status (suc n) = deleted (suc n)

abbrev pub removed : Result String ℕ → Result BackendError DeleteStatus
removed (ok n) = ok (delete_status n)
removed (err e) = err (internal_error e)

-- The pipeline of `write`; `EXPIRE` is sent if a whole second is left.
abbrev pub expire_commands : Raw → Option ℕ → List Command
expire_commands key none = []
expire_commands key (some secs) = expire_in key secs ∷ []

unfoldable pub write_commands : Raw → CacheValue Raw → ℕ → List Command
write_commands key value now =
    hset key value.data_ (to_millis value.stale_at) ∷ expire_commands key (ttl value now)

module _ {W Key Conn : Type 0} (c : Client W Key Conn) where
  -- `let mut con = self.get_connection().await?.clone();`, and then the key's format.
  abbrev connected :
      {A : Type 0}
      → Result String Conn
      → Result BackendError Raw
      → (Conn → Raw → Task W (Result BackendError A))
      → Task W (Result BackendError A)
  connected (err e) key query w = (err (internal_error e), w)
  connected (ok conn) (err e) query w = (err e, w)
  connected (ok conn) (ok key) query w = query conn key w

  unfoldable pub with_connection :
      {A : Type 0}
      → Key
      → (Conn → Raw → Task W (Result BackendError A))
      → Task W (Result BackendError A)
  with_connection key query w =
      let (connection, w') = c.get_connection w in connected connection (c.serialize key) query w'

  unfoldable pub read : Key → ℕ → Task W Found
  unfolding with_connection
  read key now w =
      with_connection key
        (λ conn k w1. let (reply, w2) = c.query_read conn k w1 in (found now reply, w2)) w

  unfoldable pub write : Key → CacheValue Raw → ℕ → Task W Written
  unfolding with_connection write_commands
  write key value now w =
      with_connection key
        (λ conn k w1.
          let (reply, w2) = c.query_write conn (write_commands k value now) w1 in
          (written reply, w2))
        w

  unfoldable pub remove : Key → Task W (Result BackendError DeleteStatus)
  unfolding with_connection
  remove key w =
      with_connection key
        (λ conn k w1. let (reply, w2) = c.query_del conn k w1 in (removed reply, w2)) w
