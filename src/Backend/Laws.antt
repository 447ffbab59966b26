-- ===== src/Backend/Laws.antt =====
-- What the methods that `CacheBackend` provides promise (hitbox-backend/src/backend.rs).
use hitbox.Prelude.{some, ◌≡◌, arith}
use hitbox.Core.Context.{BoxContext, direct, read_mode, set_status, set_source, hit, backend}
use hitbox.Core.Value.{CacheValue}
use hitbox.Core.Response.{ok}
use hitbox.Composition.Envelope.{Raw}
use hitbox.Backend.{Backend, with_data, get, set}

module _ {W Key C : Type 0} (b : Backend W Key C) (key : Key) (ctx : BoxContext) (w : W) where
  -- A get leaves the storage as its read left it, whatever the format does with the context: the
  -- write back of a refill never writes, since `set` returns at once in that mode.
  pub get-writes_nothing : (get b key ctx w).1 ≡ (b.read key w).1
  unfolding get set
  get-writes_nothing = ground arith

  -- A value that was set in direct mode is read back whole, with its two instants, and its context
  -- says Hit and names the backend. The format and the compressor undo what they did to this value,
  -- and the storage reads what it wrote.
  pub get-set :
      (value : CacheValue C) (bytes packed : Raw) (ctx' ctx'' : BoxContext) (w' w'' : W)
      → read_mode ctx ≡ direct
      → b.value_format.with_serializer value.data_ ctx ≡ ok bytes
      → b.compressor.compress bytes ≡ ok packed
      → b.write key (with_data value packed) w ≡ (ok tt, w')
      → b.read key w' ≡ (ok (some (with_data value packed)), w'')
      → b.compressor.decompress packed ≡ ok bytes
      → b.value_format.with_deserializer bytes ctx' ≡ (ok tt, some value.data_, ctx'')
      → (set b key value ctx w ≡ ((ok tt, ctx), w'))
        × (get b key ctx' (set b key value ctx w).1
            ≡ ((ok (some value), set_source (set_status ctx'' hit) (backend b.label)), w''))
  unfolding get set
  get-set value bytes packed ctx' ctx'' w' w'' mode coded packs writes reads unpacks decoded =
      ground (arith, mode, coded, packs, writes, reads, unpacks, decoded)
