-- ===== src/Storage/Feoxdb/Laws.antt =====
-- What is read back of a value in a FeOxDB store, hitbox-feoxdb/src/backend.rs.
use hitbox.Prelude.{ℕ, Option, none, some, ◌≡◌, arith}
use hitbox.Core.Value.{CacheValue, ttl}
use hitbox.Core.Response.{ok}
use hitbox.Composition.Envelope.{Raw}
use hitbox.Storage.Feoxdb.{
  SerializableCacheValue, from_value, into_value, Store, unexpired, insert_value, read, write,
}

-- The documented behaviour of the store at one key and of bincode on values: both inserts keep the
-- bytes until the time to live is over, and what was encoded is decoded.
pub record IsStore {W Key : Type 0} (s : Store W Key) (key : Raw) (held : W → Option Raw)
    : Type 0 where
  pub inserted : (v : Raw) (w : W) → held (s.insert key v w).1 ≡ some v
  pub inserted_with_ttl :
      (v : Raw) (secs : ℕ) (w : W) → held (s.insert_with_ttl key v secs w).1 ≡ some v
  pub got_held : (v : Raw) (w : W) → held w ≡ some v → (s.get key w).0 ≡ ok v
  pub decoded_value :
      (v : SerializableCacheValue) (out : Raw)
      → s.encode_value v ≡ ok out
      → s.decode_value out ≡ ok v

module _ {W Key : Type 0} (s : Store W Key) (raw : Raw) (held : W → Option Raw)
    (store : IsStore s raw held) (key : Key) (key_raw : s.encode_key key ≡ ok raw) where
  insert_value-held :
      (v : Raw) (left : Option ℕ) (w : W) → held (insert_value s raw v left w).1 ≡ some v
  insert_value-held v none w = store.inserted v w
  insert_value-held v (some secs) w = store.inserted_with_ttl v secs w

  written-held :
      (value : CacheValue Raw) (out : Raw) (now : ℕ) (w : W)
      → s.encode_value (from_value value) ≡ ok out
      → held (write s key value now w).1 ≡ some out
  unfolding write
  written-held value out now w encoded =
      ground (arith, key_raw, encoded, insert_value-held out (ttl value now) w)

  read-held :
      (v : SerializableCacheValue) (out : Raw) (later : ℕ) (w : W)
      → held w ≡ some out
      → s.decode_value out ≡ ok v
      → (read s key later w).0 ≡ ok (unexpired later (into_value v))
  unfolding read
  read-held v out later w kept decodes = ground (arith, key_raw, store.got_held out w kept, decodes)

  -- A value that is written and then read, at an instant at which the store still has it, is read
  -- whole, with its two instants, if its expiry is not past; if it is, nothing is found. The value is
  -- taken to be encoded.
  pub read-write_feoxdb :
      (value : CacheValue Raw) (out : Raw) (now later : ℕ) (w : W)
      → s.encode_value (from_value value) ≡ ok out
      → (read s key later (write s key value now w).1).0 ≡ ok (unexpired later value)
  read-write_feoxdb value out now later w encoded =
      read-held (from_value value) out later (write s key value now w).1
        (written-held value out now w encoded) (store.decoded_value (from_value value) out encoded)
