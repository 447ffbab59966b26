-- ===== src/Composition/Backend/Laws.antt =====
-- What the composition of two layers promises (hitbox-backend/src/composition/mod.rs).
use hitbox.Prelude.{ℕ, ◌+◌, ◌^◌, ◌<◌, ◌&&◌, Option, none, some, ◌≡◌, arith, length}
use hitbox.Core.Context.{
  BoxContext, cache_context, CacheContext, CompositionLayer, l1, l2, direct, refill, hit, backend,
  compose, ReadMode, read_mode,
}
use hitbox.Core.Value.{CacheValue}
use hitbox.Core.Response.{Result, ok, err}
use hitbox.Composition.Error.{BackendError}
use hitbox.Composition.Task.{join}
use hitbox.Composition.Write.{Written}
use hitbox.Composition.Write
use hitbox.Composition.Read
use hitbox.Composition.Read.Laws.{fails}
use hitbox.Composition.Envelope.{Raw, both}
use hitbox.Composition.Envelope.Laws.{deserialize-serialize_whole}
use hitbox.Composition.Format.{
  serialize_layer, serialize_parts, deserialize_layer, with_serializer, without_instants,
}
use hitbox.Composition.Format.Laws.{kept}
use hitbox.Composition.Backend.{
  CompositionBackend, RefillPolicy, always, never, sequential_reads, get, set, delete,
}
use hitbox.Composition.Backend.Packed.{as_backend, write}
use hitbox.Backend.{DeleteStatus, deleted, missing, Backend, provided, with_data}
use hitbox.Backend

-- How many layers had the key.
abbrev pub copies : Result BackendError DeleteStatus → ℕ
copies (ok (deleted n)) = n
copies (ok missing) = 0
copies (err e) = 0

abbrev pub mode_after : RefillPolicy → ReadMode
mode_after always = refill
mode_after never = direct

module _ {W Key C : Type 0} where
  -- The composition with the read and the write policy of `CompositionBackend::new`, which joins the
  -- writes of both layers; `order` says which completes first.
  abbrev pub with_defaults :
      CompositionLayer → CompositionBackend W Key C → CompositionBackend W Key C
  with_defaults order b = record b {
    read_policy = sequential_reads;
    write_policy = Write.optimistic_parallel order;
  }

  module _ (b : CompositionBackend W Key C) (order : CompositionLayer) (key : Key) (w : W)
      (r1 r2 : Result BackendError DeleteStatus) (t1 t2 : W → W) where
    -- A delete, whichever layer is first, fails only if both layers do, and counts the layers'
    -- copies together.
    pub delete-copies :
        (ctx : BoxContext)
        → ((s : W) → b.l1.delete key ctx s ≡ (r1, t1 s))
        → ((s : W) → b.l2.delete key ctx s ≡ (r2, t2 s))
        → (fails (delete b order key ctx w).0 ≡ (fails r1 && fails r2))
          × (copies (delete b order key ctx w).0 ≡ copies r1 + copies r2)
    unfolding delete
    delete-copies ctx h1 h2 = ground (arith, h1 w, h2 w, h1 (t2 w), h2 (t1 w))

  module _ (b : CompositionBackend W Key C) (key : Key) (value : CacheValue C) (w : W) where
    -- In refill mode, over a plain backend as L2, a composition that refills writes L1 alone, and
    -- answers what that write did.
    pub set-refill :
        (plain : Backend W Key C) (ctx : BoxContext) (bytes : Raw) (r : Written) (w' : W)
        → b.refill_policy ≡ always
        → read_mode ctx ≡ refill
        → serialize_layer b.format l1 value.data_ ctx ≡ ok bytes
        → b.l1.raw.write key (with_data value bytes) w ≡ (r, w')
        → set (record b { l2 = provided plain }) key value ctx w ≡ ((r, ctx), w')
    unfolding set Backend.set
    set-refill plain ctx bytes r w' policy mode coded writes =
        ground (arith, policy, mode, coded, writes)

    -- A value found in L2 alone is given with a context that says Hit, names L2 below the
    -- composition, and asks for a refill exactly if the policy is Always.
    pub get-refill :
        (order : CompositionLayer) (c : CacheContext) (raw : CacheValue Raw) (w1 w2 : W)
        → b.l1.raw.read key w ≡ (ok none, w1)
        → b.l2.raw.read key w1 ≡ (ok (some raw), w2)
        → deserialize_layer b.format raw.data_ l2 (cache_context c)
          ≡ (ok tt, some value.data_, cache_context c)
        → c.read_mode ≡ direct
        → get (with_defaults order b) key (cache_context c) w ≡ (
          (
            ok (some (with_data raw value.data_)),
            cache_context (record {
              status = hit;
              read_mode = mode_after b.refill_policy;
              source = backend (compose b.label b.l2.raw.label);
            }),
          ),
          w2,
        )
    unfolding get Read.sequential
    get-refill order c raw w1 w2 read1 read2 decoded mode =
        ground (arith, read1, read2, decoded, mode)

    -- With the policies of `CompositionBackend::new`, a value that was set in direct mode is got
    -- back whole from L1, with its two instants, whichever of the two writes completes first and
    -- whether or not the write of L2 succeeded. The write of L1 succeeds; once both are done L1 reads
    -- what was written to it; and its format and compressor undo what they did.
    pub get-set_composed :
        (order : CompositionLayer) (c c' : CacheContext) (bytes1 bytes2 : Raw) (r2 : Written)
        (w2 w3 : W)
        → c.read_mode ≡ direct
        → serialize_parts b.format value.data_ (cache_context c) ≡ ok (bytes1, bytes2)
        → join order
            (b.l1.raw.write key (with_data value bytes1))
            (b.l2.raw.write key (with_data value bytes2))
            w
          ≡ ((ok tt, r2), w2)
        → b.l1.raw.read key w2 ≡ (ok (some (with_data value bytes1)), w3)
        → deserialize_layer b.format bytes1 l1 (cache_context c')
          ≡ (ok tt, some value.data_, cache_context c')
        → get
            (with_defaults order b)
            key
            (cache_context c')
            (set (with_defaults order b) key value (cache_context c) w).1
          ≡ (
            (
              ok (some value),
              cache_context
                  (record c' { status = hit; source = backend (compose b.label b.l1.raw.label) }),
            ),
            w3,
          )
    unfolding get set Read.sequential Write.optimistic_parallel
    get-set_composed order c c' bytes1 bytes2 r2 w2 w3 mode coded writes reads decoded =
        ground (arith, mode, coded, writes, reads, decoded)

    -- Behind a trait object the two instants of a value are lost: each layer gets the data to store
    -- without an expiry, whatever the expiry of the value is.
    pub set-as_backend :
        (from_timestamp : ℕ → ℕ → Option ℕ) (order : CompositionLayer) (c : CacheContext)
        (bytes1 bytes2 : Raw) (r : Written) (w' : W)
        → c.read_mode ≡ direct
        → serialize_parts b.format value.data_ (cache_context c) ≡ ok (bytes1, bytes2)
        → length bytes1 < 2 ^ 32
        → length bytes2 < 2 ^ 32
        → b.write_policy
            (b.l1.raw.write key (without_instants bytes1))
            (b.l2.raw.write key (without_instants bytes2))
            w
          ≡ (r, w')
        → Backend.set (as_backend b from_timestamp order) key value (cache_context c) w
          ≡ ((r, cache_context c), w')
    unfolding Backend.set write with_serializer
    set-as_backend from_timestamp order c bytes1 bytes2 r w' mode coded s1 s2 writes = ground (
      arith,
      mode,
      coded,
      writes,
      deserialize-serialize_whole from_timestamp
          (both (without_instants bytes1) (without_instants bytes2))
          (kept b.format from_timestamp bytes1 s1, s2),
    )
