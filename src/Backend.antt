-- ===== src/Backend.antt =====
-- hitbox-backend/src/backend.rs: the traits `Backend` and `CacheBackend`, and the methods that
-- `CacheBackend` provides. A method works on the state `W` of the storage. A format and a compressor
-- are parameters, and an error of theirs is its message. The callback of a format is always the
-- one that (de)serializes one value of the type `C`, so the value stands in its place.
pub mod Laws
use hitbox.Prelude.{ℕ, String, Bool, Option, none, some}
use hitbox.Core.Context.{
  BoxContext, BackendLabel, ReadMode, direct, refill, read_mode, set_status, set_source, hit,
  backend,
}
use hitbox.Core.Value.{CacheValue}
use hitbox.Core.Response.{Result, ok, err}
use hitbox.Composition.Error.{BackendError, internal_error, format_error, compression_error}
use hitbox.Composition.Task.{Task}
use hitbox.Composition.Write.{Written}
use hitbox.Composition.Envelope.{Raw}

pub data DeleteStatus : Type 0 where
  deleted : ℕ → DeleteStatus
  missing : DeleteStatus

-- What `with_deserializer` leaves: its result, the value that the callback got, and the context.
abbrev pub Decoded : Type 0 → Type 0
Decoded C = Result String (Unit {0}) × Option C × BoxContext

-- `format_type_id` is a number for each format.
pub record Format (C : Type 0) : Type 0 where
  pub with_serializer : C → BoxContext → Result String Raw
  pub with_deserializer : Raw → BoxContext → Decoded C
  pub format_type_id : ℕ

pub record Compressor : Type 0 where
  pub compress : Raw → Result String Raw
  pub decompress : Raw → Result String Raw

pub record Backend (W Key C : Type 0) : Type 0 where
  pub read : Key → Task W (Result BackendError (Option (CacheValue Raw)))
  pub write : Key → CacheValue Raw → Task W Written
  pub remove : Key → Task W (Result BackendError DeleteStatus)
  pub label : BackendLabel
  pub value_format : Format C
  pub compressor : Compressor

-- What `get` and `set` give, with the context that they take by reference.
abbrev pub Got : Type 0 → Type 0
Got C = Result BackendError (Option (CacheValue C)) × BoxContext

abbrev pub Stored : Type 0
Stored = Written × BoxContext

pub record CacheBackend (W Key C : Type 0) : Type 0 where
  pub raw : Backend W Key C
  pub get : Key → BoxContext → Task W (Got C)
  pub set : Key → CacheValue C → BoxContext → Task W Stored
  pub delete : Key → BoxContext → Task W (Result BackendError DeleteStatus)

-- The value `v` with other data.
abbrev pub with_data : {A B : Type 0} → CacheValue A → B → CacheValue B
with_data v d = record { data_ = d; expire = v.expire; stale_at = v.stale_at }

module _ {W Key C : Type 0} (b : Backend W Key C) where
  set_compressed : Key → CacheValue C → BoxContext → Result String Raw → Task W Stored
  set_compressed key value ctx (ok bytes) w =
      let (r, w') = b.write key (with_data value bytes) w in ((r, ctx), w')
  set_compressed key value ctx (err e) w = ((err (compression_error e), ctx), w)

  set_serialized : Key → CacheValue C → BoxContext → Result String Raw → Task W Stored
  unfolding set_compressed
  set_serialized key value ctx (ok bytes) w =
      set_compressed key value ctx (b.compressor.compress bytes) w
  set_serialized key value ctx (err e) w = ((err (format_error e), ctx), w)

  set_in_mode : ReadMode → Key → CacheValue C → BoxContext → Task W Stored
  unfolding set_serialized
  set_in_mode refill key value ctx w = ((ok tt, ctx), w)
  set_in_mode direct key value ctx w =
      set_serialized key value ctx (b.value_format.with_serializer value.data_ ctx) w

  unfoldable pub set : Key → CacheValue C → BoxContext → Task W Stored
  unfolding set_in_mode read_mode
  set key value ctx w = set_in_mode (read_mode ctx) key value ctx w

  -- The write back of a value that came from a deeper layer, whose result is dropped.
  refill_if : ReadMode → Key → CacheValue C → BoxContext → Task W BoxContext
  unfolding set
  refill_if refill key value ctx w = let ((r, ctx'), w') = set key value ctx w in (ctx', w')
  refill_if direct key value ctx w = (ctx, w)

  hit_from : CacheValue C → BoxContext → Got C
  unfolding set_status set_source
  hit_from value ctx = (ok (some value), set_source (set_status ctx hit) (backend b.label))

  get_decoded : Key → CacheValue Raw → Decoded C → Task W (Got C)
  unfolding refill_if hit_from read_mode
  get_decoded key raw (ok u, some d, ctx) w =
      let (ctx', w') = refill_if (read_mode ctx) key (with_data raw d) ctx w in
      (hit_from (with_data raw d) ctx', w')
  get_decoded key raw (ok u, none, ctx) w =
      ((err (internal_error "deserialization produced no result"), ctx), w)
  get_decoded key raw (err e, d, ctx) w = ((err (format_error e), ctx), w)

  get_decompressed : Key → BoxContext → CacheValue Raw → Result String Raw → Task W (Got C)
  unfolding get_decoded
  get_decompressed key ctx raw (ok bytes) w =
      get_decoded key raw (b.value_format.with_deserializer bytes ctx) w
  get_decompressed key ctx raw (err e) w = ((err (compression_error e), ctx), w)

  get_read : Key → BoxContext → Result BackendError (Option (CacheValue Raw)) → Task W (Got C)
  unfolding get_decompressed
  get_read key ctx (ok (some raw)) w =
      get_decompressed key ctx raw (b.compressor.decompress raw.data_) w
  get_read key ctx (ok none) w = ((ok none, ctx), w)
  get_read key ctx (err e) w = ((err e, ctx), w)

  unfoldable pub get : Key → BoxContext → Task W (Got C)
  unfolding get_read
  get key ctx w = let (r, w') = b.read key w in get_read key ctx r w'

  unfoldable pub delete : Key → BoxContext → Task W (Result BackendError DeleteStatus)
  delete key ctx w = b.remove key w

  -- The provided methods together, which trait objects use, too.
  abbrev pub provided : CacheBackend W Key C
  provided = record { raw = b; get = get; set = set; delete = delete }
