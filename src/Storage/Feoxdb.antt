-- ===== src/Storage/Feoxdb.antt =====
-- hitbox-feoxdb/src/backend.rs: values in a FeOxDB store, encoded with their two instants. The store
-- and bincode are parameters; a blocking task runs at once, and an error is its message.
pub mod Builder
pub mod Laws
use hitbox.Prelude.{ℕ, String, Bool, true, false, Option, none, some, ltb, if◌then◌else◌}
use hitbox.Core.Value.{CacheValue, ttl}
use hitbox.Core.Response.{Result, ok, err}
use hitbox.Composition.Error.{BackendError, internal_error}
use hitbox.Composition.Task.{Task}
use hitbox.Composition.Write.{Written}
use hitbox.Composition.Envelope.{Raw}
use hitbox.Backend.{DeleteStatus, deleted, missing}

pub record SerializableCacheValue : Type 0 where
  pub data_ : Raw
  pub stale : Option ℕ
  pub expire : Option ℕ

-- The two impls of `From`.
abbrev pub from_value : CacheValue Raw → SerializableCacheValue
from_value v = record { data_ = v.data_; stale = v.stale_at; expire = v.expire }

abbrev pub into_value : SerializableCacheValue → CacheValue Raw
into_value s = record { data_ = s.data_; expire = s.expire; stale_at = s.stale }

-- `FeoxError`, of which `KeyNotFound` is told apart.
pub data FeoxError : Type 0 where
  key_not_found : FeoxError
  other : String → FeoxError

-- The methods of `FeoxStore`, and the encodings of bincode.
pub record Store (W Key : Type 0) : Type 0 where
  pub encode_key : Key → Result String Raw
  pub encode_value : SerializableCacheValue → Result String Raw
  pub decode_value : Raw → Result String SerializableCacheValue
  pub get : Raw → Task W (Result FeoxError Raw)
  pub insert : Raw → Raw → Task W (Result String (Unit {0}))
  pub insert_with_ttl : Raw → Raw → ℕ → Task W (Result String (Unit {0}))
  pub contains_key : Raw → Task W Bool
  pub delete : Raw → Task W (Result String (Unit {0}))

abbrev pub Found : Type 0
Found = Result BackendError (Option (CacheValue Raw))

-- `if let Some(expire_time) = cache_value.expire() && expire_time < Utc::now()`
abbrev pub is_past : Option ℕ → ℕ → Bool
is_past none now = false
is_past (some t) now = ltb t now

unfoldable pub unexpired : ℕ → CacheValue Raw → Option (CacheValue Raw)
unexpired now v = if is_past v.expire now then none else some v

abbrev pub decoded : ℕ → Result String SerializableCacheValue → Found
decoded now (err e) = err (internal_error e)
decoded now (ok s) = ok (unexpired now (into_value s))

abbrev pub stored : Result String (Unit {0}) → Written
stored (ok u) = ok tt
stored (err e) = err (internal_error e)

abbrev pub deleted_one : Result String (Unit {0}) → Result BackendError DeleteStatus
deleted_one (ok u) = ok (deleted 1)
deleted_one (err e) = err (internal_error e)

module _ {W Key : Type 0} (s : Store W Key) where
  abbrev pub got : ℕ → Result FeoxError Raw → Found
  got now (ok encoded) = decoded now (s.decode_value encoded)
  got now (err key_not_found) = ok none
  got now (err (other e)) = err (internal_error e)

  abbrev read_key : ℕ → Result String Raw → Task W Found
  read_key now (err e) w = (err (internal_error e), w)
  read_key now (ok key) w = let (r, w') = s.get key w in (got now r, w')

  unfoldable pub read : Key → ℕ → Task W Found
  read key now w = read_key now (s.encode_key key) w

  -- `insert_with_ttl` if a whole second is left, `insert` if not.
  abbrev pub insert_value : Raw → Raw → Option ℕ → Task W (Result String (Unit {0}))
  insert_value key value (some secs) w = s.insert_with_ttl key value secs w
  insert_value key value none w = s.insert key value w

  abbrev write_key : Option ℕ → Result String Raw → Result String Raw → Task W Written
  write_key left (err e) value w = (err (internal_error e), w)
  write_key left (ok key) (err e) w = (err (internal_error e), w)
  write_key left (ok key) (ok value) w =
      let (r, w') = insert_value key value left w in (stored r, w')

  unfoldable pub write : Key → CacheValue Raw → ℕ → Task W Written
  write key value now w =
      write_key (ttl value now) (s.encode_key key) (s.encode_value (from_value value)) w

  abbrev delete_if : Raw → Bool → Task W (Result BackendError DeleteStatus)
  delete_if key true w = let (r, w') = s.delete key w in (deleted_one r, w')
  delete_if key false w = (ok missing, w)

  abbrev remove_key : Result String Raw → Task W (Result BackendError DeleteStatus)
  remove_key (err e) w = (err (internal_error e), w)
  remove_key (ok key) w = let (exists_, w') = s.contains_key key w in delete_if key exists_ w'

  unfoldable pub remove : Key → Task W (Result BackendError DeleteStatus)
  remove key w = remove_key (s.encode_key key) w
