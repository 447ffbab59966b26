-- ===== src/Composition/Backend/Tests.antt =====
-- The backends over a toy storage: one key, a number as the value, which is written as one byte and
-- not compressed, and for each layer the value that it holds.
use hitbox.Prelude.{ℕ, Option, none, some, [], ◌∷◌, ◌≡◌, refl, arith}
use hitbox.Core.Context.{
  BoxContext, cache_context, CacheContext, default_context, l1, l2, refill, hit, direct, backend,
  compose, read_mode, upstream,
}
use hitbox.Core.Value.{CacheValue}
use hitbox.Core.Response.{ok, err}
use hitbox.Composition.Envelope.{Raw}
use hitbox.Composition.Format.{
  serialize_layer, serialize_parts, deserialize_layer, without_instants,
}
use hitbox.Composition.Task.{join}
use hitbox.Composition.Write
use hitbox.Composition.Backend.{CompositionBackend, always, sequential_reads, get, set}
use hitbox.Composition.Backend.Packed.{as_backend, passthrough}
use hitbox.Composition.Backend.Laws.{set-refill, get-set_composed, set-as_backend}
use hitbox.Backend.{DeleteStatus, deleted, missing, Format, Backend, Decoded, provided, with_data}
use hitbox.Backend

abbrev Held : Type 0
Held = Option (CacheValue Raw)

abbrev Both : Type 0
Both = Held × Held

abbrev decode : Raw → BoxContext → Decoded ℕ
decode [] ctx = (err "empty", none, ctx)
decode (n ∷ rest) ctx = (ok tt, some n, ctx)

abbrev one_byte : Format ℕ
one_byte = record {
  with_serializer = λ n ctx. ok (n ∷ []);
  with_deserializer = decode;
  format_type_id = 0;
}

abbrev status_of : Held → DeleteStatus
status_of none = missing
status_of (some v) = deleted 1

abbrev first : Backend Both ℕ ℕ
first = record {
  read = λ key w. (ok w.0, w);
  write = λ key v w. (ok tt, (some v, w.1));
  remove = λ key w. (ok (status_of w.0), (none, w.1));
  label = record { name = "moka" };
  value_format = one_byte;
  compressor = passthrough;
}

abbrev second : Backend Both ℕ ℕ
second = record {
  read = λ key w. (ok w.1, w);
  write = λ key v w. (ok tt, (w.0, some v));
  remove = λ key w. (ok (status_of w.1), (w.0, none));
  label = record { name = "redis" };
  value_format = one_byte;
  compressor = passthrough;
}

abbrev layers : CompositionBackend Both ℕ ℕ
layers = record {
  l1 = provided first;
  l2 = provided second;
  format = record {
    l1_format = one_byte;
    l2_format = one_byte;
    l1_compressor = passthrough;
    l2_compressor = passthrough;
    labels = record {
      l1_label = record { name = "composition.moka" };
      l2_label = record { name = "composition.redis" };
    };
  };
  read_policy = sequential_reads;
  write_policy = Write.optimistic_parallel l1;
  refill_policy = always;
  label = record { name = "composition" };
}

-- Layers that always find one copy to delete.
abbrev counting : CompositionBackend Both ℕ ℕ
counting = record layers {
  l1 = record (provided first) { delete = λ key ctx w. (ok (deleted 1), w) };
  l2 = record (provided second) { delete = λ key ctx w. (ok (deleted 1), w) };
}

abbrev start : CacheContext
start = default_context

abbrev seven : CacheValue ℕ
seven = record { data_ = 7; expire = some 90; stale_at = some 40 }

abbrev bytes : Raw
bytes = 7 ∷ []

abbrev held : Held
held = some (with_data seven bytes)

-- What a request carries after a value of L2 that is to be refilled.
abbrev refilling : CacheContext
refilling = record { status = hit; read_mode = refill; source = upstream }

set-refill_example :
    set layers 1 seven (cache_context refilling) (none, held)
    ≡ ((ok tt, cache_context refilling), (held, held))
unfolding read_mode serialize_layer
set-refill_example =
    set-refill layers 1 seven (none, held) second (cache_context refilling) bytes (ok tt)
      (held, held) refl refl refl refl

-- The write of L2 completes first.
get-set_composed_example :
    get
      (record layers { write_policy = Write.optimistic_parallel l2 })
      1
      (cache_context start)
      (set
        (record layers { write_policy = Write.optimistic_parallel l2 })
        1
        seven
        (cache_context start)
        (none, none)).1
    ≡ (
      (
        ok (some seven),
        cache_context (record {
          status = hit;
          read_mode = direct;
          source = backend (compose layers.label first.label);
        }),
      ),
      (held, held),
    )
unfolding serialize_parts deserialize_layer join
get-set_composed_example =
    get-set_composed layers 1 seven (none, none) l2 start start bytes bytes (ok tt) (held, held)
      (held, held) refl refl refl refl refl

-- What a layer holds of `seven` after a set behind a trait object.
abbrev timeless : Held
timeless = some (without_instants bytes)

set-as_backend_example :
    Backend.set
      (as_backend layers (λ secs nanos. none) l1)
      1
      seven
      (cache_context start)
      (none, none)
    ≡ ((ok tt, cache_context start), (timeless, timeless))
unfolding serialize_parts Write.optimistic_parallel
set-as_backend_example =
    set-as_backend layers 1 seven (none, none) (λ secs nanos. none) l1 start bytes bytes (ok tt)
      (timeless, timeless) refl refl (omega arith) (omega arith) refl
