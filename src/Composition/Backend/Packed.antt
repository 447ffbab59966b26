-- ===== src/Composition/Backend/Packed.antt =====
-- hitbox-backend/src/composition/mod.rs: the impl of `Backend` for `CompositionBackend`, which works
-- on envelopes, and the composition as a backend for a trait object and for another composition.
use hitbox.Prelude.{ℕ, Option, none, some}
use hitbox.Core.Context.{cache_context, default_context, CompositionLayer, l1, l2}
use hitbox.Core.Value.{CacheValue}
use hitbox.Core.Response.{Result, ok, err}
use hitbox.Composition.Error.{BackendError}
use hitbox.Composition.Task.{Task, join}
use hitbox.Composition.Read.{LayerRead, ReadResult}
use hitbox.Composition.Write.{Written}
use hitbox.Composition.Envelope.{CompositionEnvelope, both, serialize, deserialize}
use hitbox.Composition.Envelope.{Raw}
use hitbox.Composition.Envelope
use hitbox.Composition.Format.{as_format}
use hitbox.Backend.{DeleteStatus, Backend, CacheBackend, Compressor, with_data}
use hitbox.Composition.Backend.{CompositionBackend, both_deleted, get, set, delete}

-- `PassthroughCompressor`
abbrev pub passthrough : Compressor
passthrough = record { compress = λ bytes. ok bytes; decompress = λ bytes. ok bytes }

abbrev envelope_of : CompositionLayer → CacheValue Raw → CompositionEnvelope
envelope_of l1 v = Envelope.l1 v
envelope_of l2 v = Envelope.l2 v

packed :
    CompositionLayer → Result BackendError (Option (CacheValue Raw)) → LayerRead BackendError Raw
unfolding serialize
packed layer (ok (some v)) =
    (ok (some (with_data v (serialize (envelope_of layer v)))), cache_context default_context)
packed layer (ok none) = (ok none, cache_context default_context)
packed layer (err e) = (err e, cache_context default_context)

value_read : Result BackendError (ReadResult Raw) → Result BackendError (Option (CacheValue Raw))
value_read (ok r) = ok r.value
value_read (err e) = err e

module _ {W Key C : Type 0} (b : CompositionBackend W Key C) where
  read_packed : CacheBackend W Key C → CompositionLayer → Key → Task W (LayerRead BackendError Raw)
  unfolding packed
  read_packed layer_backend layer key w =
      let (r, w') = layer_backend.raw.read key w in (packed layer r, w')

  unfoldable pub read : Key → Task W (Result BackendError (Option (CacheValue Raw)))
  unfolding read_packed value_read
  read key w =
      let (r, w') =
        b.read_policy.execute_with (read_packed b.l1 l1 key) (read_packed b.l2 l2 key) w in
      (value_read r, w')

  write_envelope : Key → Result BackendError CompositionEnvelope → Task W Written
  write_envelope key (ok (both v1 v2)) w =
      b.write_policy (b.l1.raw.write key v1) (b.l2.raw.write key v2) w
  write_envelope key (ok (Envelope.l1 v)) w = b.l1.raw.write key v w
  write_envelope key (ok (Envelope.l2 v)) w = b.l2.raw.write key v w
  write_envelope key (err e) w = (err e, w)

  unfoldable pub write : (ℕ → ℕ → Option ℕ) → Key → CacheValue Raw → Task W Written
  unfolding write_envelope
  write from_timestamp key value w = write_envelope key (deserialize from_timestamp value.data_) w

  unfoldable pub remove : CompositionLayer → Key → Task W (Result BackendError DeleteStatus)
  unfolding join both_deleted
  remove order key w =
      let ((r1, r2), w') = join order (b.l1.raw.remove key) (b.l2.raw.remove key) w in
      (both_deleted r1 r2, w')

  -- The composition as a `Backend`, which is what a trait object of it calls.
  abbrev pub as_backend : (ℕ → ℕ → Option ℕ) → CompositionLayer → Backend W Key C
  as_backend from_timestamp order = record {
    read = read;
    write = write from_timestamp;
    remove = remove order;
    label = b.label;
    value_format = as_format b.format from_timestamp;
    compressor = passthrough;
  }

  -- The composition as a `CacheBackend`, which has its own `get`, `set` and `delete`.
  abbrev pub as_cache_backend : (ℕ → ℕ → Option ℕ) → CompositionLayer → CacheBackend W Key C
  as_cache_backend from_timestamp order = record {
    raw = as_backend from_timestamp order;
    get = get b;
    set = set b;
    delete = delete b order;
  }
