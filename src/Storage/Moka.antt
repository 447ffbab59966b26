-- ===== src/Storage/Moka.antt =====
-- hitbox-moka/src/backend.rs: values in a moka cache, which is a parameter that works on a state `W`,
-- and the expiry policy of hitbox-moka/src/builder.rs. Metrics are left out. The record gives what
-- hitbox.Backend asks of a backend, which is without the format of keys: moka does not use it.
pub mod Builder
pub mod Laws
use hitbox.Prelude.{ℕ, ◌-◌, ◌*◌, ◌/◌, Option, none, some, leb, if◌then◌else◌}
use hitbox.Core.Context.{BackendLabel}
use hitbox.Key.Format.{CacheKeyFormat}
use hitbox.Core.Value.{CacheValue}
use hitbox.Core.Response.{Result, ok, err}
use hitbox.Composition.Error.{BackendError}
use hitbox.Composition.Task.{Task}
use hitbox.Composition.Write.{Written}
use hitbox.Composition.Envelope.{Raw}
use hitbox.Backend.{DeleteStatus, deleted, missing, Format, Compressor, Backend}

-- `moka::future::Cache`
pub record Cache (W Key : Type 0) : Type 0 where
  pub get : Key → Task W (Option (CacheValue Raw))
  pub insert : Key → CacheValue Raw → W → W
  pub remove : Key → Task W (Option (CacheValue Raw))

pub record MokaBackend (W Key C : Type 0) : Type 0 where
  pub cache : Cache W Key
  pub key_format : CacheKeyFormat
  pub serializer : Format C
  pub compressor : Compressor
  pub label : BackendLabel

abbrev pub removed_status : Option (CacheValue Raw) → DeleteStatus
removed_status none = missing
removed_status (some v) = deleted 1

module _ {W Key C : Type 0} (m : MokaBackend W Key C) where
  unfoldable pub read : Key → Task W (Result BackendError (Option (CacheValue Raw)))
  read key w = let (v, w') = m.cache.get key w in (ok v, w')

  unfoldable pub write : Key → CacheValue Raw → Task W Written
  write key value w = (ok tt, m.cache.insert key value w)

  unfoldable pub remove : Key → Task W (Result BackendError DeleteStatus)
  remove key w = let (v, w') = m.cache.remove key w in (ok (removed_status v), w')

  unfoldable pub backend : Backend W Key C
  unfolding read write remove
  backend = record {
    read = read;
    write = write;
    remove = remove;
    label = m.label;
    value_format = m.serializer;
    compressor = m.compressor;
  }

abbrev pub nanos_per_milli : ℕ
nanos_per_milli = 1_000_000

-- The branches on `millis`; the difference stops at 0 where the source's is negative.
abbrev pub left_millis : ℕ → ℕ
left_millis millis = if leb millis 0 then 0 else millis * nanos_per_milli

-- `Expiration::calculate_ttl`, with the value's instant of expiry and the clock.
unfoldable pub calculate_ttl : Option ℕ → ℕ → Option ℕ
calculate_ttl none now = none
calculate_ttl (some expiration) now = some (left_millis ((expiration - now) / nanos_per_milli))
