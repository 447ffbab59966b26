-- ===== src/Composition/Backend.antt =====
-- hitbox-backend/src/composition/mod.rs: `CompositionBackend`, two layers as one backend. The
-- offload of a race's loser is part of a policy; which of two joined tasks completes first is the
-- argument `order`. Where an error is boxed again, its message stands.
pub mod Packed
pub mod Laws
mod Tests
use hitbox.Prelude.{ℕ, ◌+◌, String, Bool, Option, none, some}
use hitbox.Core.Context.{
  BoxContext, cache_context, composition_context, default_context, CompositionLayer, l1, l2,
  LayerLabels, label_for_layer, BackendLabel, compose, ReadMode, direct, refill, read_mode,
  set_read_mode, set_status, set_source, hit, backend, merge_from,
}
use hitbox.Core.Value.{CacheValue}
use hitbox.Core.Response.{Result, ok, err, chain}
use hitbox.Composition.Error.{BackendError, internal_error, both_layers_failed}
use hitbox.Composition.Task.{Task, join}
use hitbox.Composition.Read.{LayerRead, ReadResult}
use hitbox.Composition.Read
use hitbox.Composition.Write.{Written}
use hitbox.Composition.Write
use hitbox.Composition.Envelope.{Raw, CompositionEnvelope, both, serialize, deserialize}
use hitbox.Composition.Envelope
use hitbox.Composition.Format.{
  CompositionFormat, serialize_layer, serialize_parts, deserialize_layer, as_format,
}
use hitbox.Backend.{
  DeleteStatus, deleted, missing, Decoded, Backend, CacheBackend, Compressor, Got, Stored,
  with_data,
}

-- The traits `CompositionReadPolicy` and `CompositionWritePolicy`.
pub record ReadPolicy (W : Type 0) : Type 1 where
  pub execute_with :
      {A : Type 0}
      → Task W (LayerRead BackendError A)
      → Task W (LayerRead BackendError A)
      → Task W (Result BackendError (ReadResult A))

abbrev pub WritePolicy : Type 0 → Type 0
WritePolicy W = Task W Written → Task W Written → Task W Written

pub data RefillPolicy : Type 0 where
  always never : RefillPolicy

pub record CompositionBackend (W Key C : Type 0) : Type 1 where
  pub l1 : CacheBackend W Key C
  pub l2 : CacheBackend W Key C
  pub format : CompositionFormat C
  pub read_policy : ReadPolicy W
  pub write_policy : WritePolicy W
  pub refill_policy : RefillPolicy
  pub label : BackendLabel

abbrev pub sequential_reads : {W : Type 0} → ReadPolicy W
sequential_reads = record { execute_with = Read.sequential }

-- `CompositionBackend::new`, and `label`, which changes the labels of the format, too.
module _ {W Key C : Type 0} where
  labels_of : BackendLabel → CacheBackend W Key C → CacheBackend W Key C → LayerLabels
  labels_of label a b = record {
    l1_label = compose label a.raw.label;
    l2_label = compose label b.raw.label;
  }

  unfoldable pub new :
      CompositionLayer → CacheBackend W Key C → CacheBackend W Key C → CompositionBackend W Key C
  unfolding labels_of
  new order a b = record {
    l1 = a;
    l2 = b;
    format = record {
      l1_format = a.raw.value_format;
      l2_format = b.raw.value_format;
      l1_compressor = a.raw.compressor;
      l2_compressor = b.raw.compressor;
      labels = labels_of (record { name = "composition" }) a b;
    };
    read_policy = sequential_reads;
    write_policy = Write.optimistic_parallel order;
    refill_policy = never;
    label = record { name = "composition" };
  }

  unfoldable pub with_label : CompositionBackend W Key C → BackendLabel → CompositionBackend W Key C
  unfolding labels_of
  with_label b label = record b {
    format = record b.format { labels = labels_of label b.l1 b.l2 };
    label = label;
  }

-- The match on both results that `remove` and `delete` share.
unfoldable pub both_deleted :
    Result BackendError DeleteStatus
    → Result BackendError DeleteStatus
    → Result BackendError DeleteStatus
both_deleted (err e1) (err e2) = err (both_layers_failed e1 e2)
both_deleted (err e) (ok status) = ok status
both_deleted (ok status) (err e) = ok status
both_deleted (ok (deleted n1)) (ok (deleted n2)) = ok (deleted (n1 + n2))
both_deleted (ok (deleted n)) (ok missing) = ok (deleted n)
both_deleted (ok missing) (ok (deleted n)) = ok (deleted n)
both_deleted (ok missing) (ok missing) = ok missing

-- The source of a value: a nested composition has marked its layer in the context.
source_of : BoxContext → BackendLabel → BackendLabel
source_of (composition_context inner layer labels) name = label_for_layer labels layer
source_of (cache_context c) name = name

-- The refill mode that follows a hit of L2.
mark_refill : CompositionLayer → RefillPolicy → BoxContext → BoxContext
unfolding set_read_mode
mark_refill l2 always ctx = set_read_mode ctx refill
mark_refill l2 never ctx = ctx
mark_refill l1 policy ctx = ctx

module _ {C : Type 0} where
  decoded : CacheValue Raw → BackendLabel → Decoded C → LayerRead BackendError C
  unfolding source_of set_status set_source
  decoded raw name (ok u, some d, ctx) = (
    ok (some (with_data raw d)),
    set_source (set_status ctx hit) (backend (source_of (set_status ctx hit) name)),
  )
  decoded raw name (ok u, none, ctx) =
      (err (internal_error "deserialization produced no result"), ctx)
  decoded raw name (err e, d, ctx) = (err (internal_error e), ctx)

  layer_result :
      CompositionFormat C
      → CompositionLayer
      → BackendLabel
      → BoxContext
      → Result BackendError (Option (CacheValue Raw))
      → LayerRead BackendError C
  unfolding decoded deserialize_layer
  layer_result f layer name ctx (ok (some raw)) =
      decoded raw name (deserialize_layer f raw.data_ layer ctx)
  layer_result f layer name ctx (ok none) = (ok none, ctx)
  layer_result f layer name ctx (err e) = (err e, ctx)

module _ {W Key C : Type 0} (b : CompositionBackend W Key C) where
  read_layer :
      CacheBackend W Key C → CompositionLayer → Key → BoxContext → Task W (LayerRead BackendError C)
  unfolding layer_result
  read_layer layer_backend layer key ctx w =
      let (r, w') = layer_backend.raw.read key w in
      (layer_result b.format layer layer_backend.raw.label ctx r, w')

  merged : BoxContext → Result BackendError (ReadResult C) → Got C
  unfolding merge_from mark_refill
  merged ctx (ok r) = elim r.value [
    | none ↦ (ok none, ctx)
    | some v ↦
        (ok (some v), mark_refill r.source b.refill_policy (merge_from ctx r.context b.label))
  ]
  merged ctx (err e) = (err e, ctx)

  unfoldable pub get : Key → BoxContext → Task W (Got C)
  unfolding read_layer merged
  get key ctx w =
      let (r, w') =
        b.read_policy.execute_with (read_layer b.l1 l1 key ctx) (read_layer b.l2 l2 key ctx) w in
      (merged ctx r, w')

  -- L2's own `set` comes after a write to L1 that succeeded.
  then_l2 : Written → Key → CacheValue C → BoxContext → Task W Written
  then_l2 (ok u) key value ctx w = let ((r, ctx'), w') = b.l2.set key value ctx w in (r, w')
  then_l2 (err e) key value ctx w = (err e, w)

  refill_with : Key → CacheValue C → BoxContext → Result String Raw → Task W Written
  unfolding then_l2
  refill_with key value ctx (ok bytes) w =
      let (r, w') = b.l1.raw.write key (with_data value bytes) w in then_l2 r key value ctx w'
  refill_with key value ctx (err e) w = (err (internal_error e), w)

  -- The write of L1 alone: it is serialized in the context `ctx`, and L2 is called with `l2_ctx`.
  refill_l1 : Key → CacheValue C → BoxContext → BoxContext → Task W Written
  unfolding refill_with serialize_layer
  refill_l1 key value ctx l2_ctx w =
      refill_with key value l2_ctx (serialize_layer b.format l1 value.data_ ctx) w

  write_parts : Key → CacheValue C → Result String (Raw × Raw) → Task W Written
  write_parts key value (ok bytes) w =
      b.write_policy (b.l1.raw.write key (with_data value bytes.0))
        (b.l2.raw.write key (with_data value bytes.1)) w
  write_parts key value (err e) w = (err (internal_error e), w)

  write_both : Key → CacheValue C → BoxContext → Task W Written
  unfolding write_parts serialize_parts
  write_both key value ctx w = write_parts key value (serialize_parts b.format value.data_ ctx) w

  -- The branch for a nested refill, which looks for a composition context of L2.
  set_nested : RefillPolicy → Key → CacheValue C → BoxContext → Task W Written
  unfolding refill_l1 write_both
  set_nested always key value (composition_context inner l2 labels) w =
      refill_l1 key value (composition_context inner l2 labels) inner w
  set_nested never key value (composition_context inner l2 labels) w =
      then_l2 (ok tt) key value inner w
  set_nested policy key value (composition_context inner l1 labels) w =
      write_both key value (composition_context inner l1 labels) w
  set_nested policy key value (cache_context c) w = write_both key value (cache_context c) w

  set_in_mode : ReadMode → RefillPolicy → Key → CacheValue C → BoxContext → Task W Written
  unfolding refill_l1 set_nested
  set_in_mode refill always key value ctx w = refill_l1 key value ctx ctx w
  set_in_mode refill never key value ctx w = (ok tt, w)
  set_in_mode direct policy key value ctx w = set_nested policy key value ctx w

  unfoldable pub set : Key → CacheValue C → BoxContext → Task W Stored
  unfolding set_in_mode read_mode
  set key value ctx w =
      let (r, w') = set_in_mode (read_mode ctx) b.refill_policy key value ctx w in ((r, ctx), w')

  unfoldable pub delete :
      CompositionLayer → Key → BoxContext → Task W (Result BackendError DeleteStatus)
  unfolding join both_deleted
  delete order key ctx w =
      let ((r1, r2), w') = join order (b.l1.delete key ctx) (b.l2.delete key ctx) w in
      (both_deleted r1 r2, w')
