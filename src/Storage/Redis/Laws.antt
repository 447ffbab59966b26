-- ===== src/Storage/Redis/Laws.antt =====
-- What is read back of a value in Redis, hitbox-redis/src/backend.rs.
use hitbox.Prelude.{
  ℕ, zero, suc, ◌+◌, ◌*◌, ◌<◌, Option, none, some, List, [], ◌∷◌, ◌≡◌, refl, ap, ◌∙◌, arith,
}
use hitbox.Core.Value.{CacheValue, ttl}
use hitbox.Core.Response.{ok}
use hitbox.Composition.Envelope.{Raw}
use hitbox.Storage.Redis.{
  Reply, millis, negative, Command, hset, expire_in, Client, nanos_per_milli, expiry, from_millis,
  to_millis, read_reply, write_commands, with_connection, read, write,
}

-- A hash of the server with the fields `d` and `s`, and the milliseconds until the key expires.
pub record Entry : Type 0 where
  pub d : Option Raw
  pub s : Option ℕ
  pub left : Option ℕ

abbrev pub no_entry : Entry
no_entry = record { d = none; s = none; left = none }

abbrev pub or_old : Option ℕ → Option ℕ → Option ℕ
or_old none old = old
or_old (some n) old = some n

-- The documented behaviour of the commands on one key: `HSET` sets the fields that it is given, and
-- keeps the others and the time to live; `EXPIRE` sets that.
abbrev pub run : List Command → Entry → Entry
run [] e = e
run (hset key d s ∷ cs) e = run cs (record e { d = some d; s = or_old s e.s })
run (expire_in key secs ∷ cs) e = run cs (record e { left = some (secs * 1_000) })

abbrev pub pttl : Option ℕ → Reply
pttl none = negative 0
pttl (some ms) = millis ms

abbrev pub reply_of : Entry → (Option Raw × Option ℕ) × Reply
reply_of e = ((e.d, e.s), pttl e.left)

-- A server that answers, at the key `raw`: no time passes between the commands.
pub record IsServer {W Key Conn : Type 0} (c : Client W Key Conn) (raw : Raw) (entry : W → Entry)
    : Type 0 where
  pub connection : W → Conn
  pub connects : (w : W) → (c.get_connection w).0 ≡ ok (connection w)
  pub connection-entry : (w : W) → entry (c.get_connection w).1 ≡ entry w
  pub writes : (conn : Conn) (cs : List Command) (w : W) → (c.query_write conn cs w).0 ≡ ok tt
  pub write-entry :
      (conn : Conn) (value : CacheValue Raw) (now : ℕ) (w : W)
      → entry (c.query_write conn (write_commands raw value now) w).1
        ≡ run (write_commands raw value now) (entry w)
  pub reads : (conn : Conn) (w : W) → (c.query_read conn raw w).0 ≡ ok (reply_of (entry w))

-- The expiry of a value that has `secs` seconds to live, or else what the entry had left.
abbrev pub new_expiry : ℕ → Option ℕ → Option ℕ → Option ℕ
new_expiry now (some secs) left = some (now + (secs * 1_000) * nanos_per_milli)
new_expiry now none left = expiry now (pttl left)

expiry-later : (now n : ℕ) → 0 < n → expiry now (millis n) ≡ some (now + n * nanos_per_milli)
expiry-later now zero h = absurd (omega (arith, h))
expiry-later now (suc n) h = refl

ttl_positive : (value : CacheValue Raw) (now secs : ℕ) → ttl value now ≡ some secs → 0 < secs
unfolding ttl
ttl_positive value now secs h = ground (arith, h)

-- What the commands of a write leave, by the seconds that the value has to live.
written_reply :
    (raw : Raw) (value : CacheValue Raw) (now : ℕ) (e : Entry) (left : Option ℕ)
    → ttl value now ≡ left
    → read_reply now (reply_of (run (write_commands raw value now) e))
      ≡ some (record {
        data_ = value.data_;
        expire = new_expiry now left e.left;
        stale_at = from_millis (or_old (to_millis value.stale_at) e.s);
      })
unfolding write_commands
written_reply raw value now e none h = ground (arith, h)
written_reply raw value now e (some secs) h =
    ground
      (arith, h, expiry-later now (secs * 1_000) (omega (arith, ttl_positive value now secs h)))

module _ {W Key Conn : Type 0} (c : Client W Key Conn) (raw : Raw) (entry : W → Entry)
    (server : IsServer c raw entry) (key : Key) (key_raw : c.serialize key ≡ ok raw) (now : ℕ) where
  read-found : (w : W) → (read c key now w).0 ≡ ok (read_reply now (reply_of (entry w)))
  unfolding read with_connection
  read-found w = ground (
    arith,
    server.connects w,
    key_raw,
    server.reads (server.connection w) (c.get_connection w).1,
    server.connection-entry w,
  )

  write-run :
      (value : CacheValue Raw) (w : W)
      → entry (write c key value now w).1 ≡ run (write_commands raw value now) (entry w)
  unfolding write with_connection
  write-run value w = ground (
    arith,
    server.connects w,
    key_raw,
    server.write-entry (server.connection w) value now (c.get_connection w).1,
    server.connection-entry w,
  )

  -- A value that is written and read back at once has its data. It expires when its whole seconds to
  -- live are over; if it has none it keeps what the key's former value had left, or never expires.
  -- Its instant of staleness is its own in whole milliseconds; if it has none, the former value's.
  pub read-write_redis :
      (value : CacheValue Raw) (w : W)
      → (read c key now (write c key value now w).1).0
        ≡ ok (
            some (record {
              data_ = value.data_;
              expire = new_expiry now (ttl value now) (entry w).left;
              stale_at = from_millis (or_old (to_millis value.stale_at) (entry w).s);
            }))
  read-write_redis value w =
      read-found (write c key value now w).1
      ∙ ap (λ e. ok (read_reply now (reply_of e))) (write-run value w)
      ∙ ap ok (written_reply raw value now (entry w) (ttl value now) refl)
