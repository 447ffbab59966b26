-- ===== src/Core/Context.antt =====
-- hitbox-core/src/context.rs, hitbox-core/src/label.rs and
-- hitbox-backend/src/composition/context.rs: the context that travels with a request.
-- `Box<dyn Context>` is a data type with a constructor for each implementation of the trait.
-- Of the format that a composition context carries only its two labels are ever read.
pub mod Laws
use Prim.Native.String.{◌++◌}
use hitbox.Prelude.{String, Bool, true, false, if◌then◌else◌}

pub data CacheStatus : Type 0 where
  hit miss stale : CacheStatus

pub data ReadMode : Type 0 where
  direct refill : ReadMode

pub data CompositionLayer : Type 0 where
  l1 l2 : CompositionLayer

pub record BackendLabel : Type 0 where
  pub name : String

-- `format!("{}.{}", self, other)`
pub compose : BackendLabel → BackendLabel → BackendLabel
compose a b = record { name = a.name ++ "." ++ b.name }

pub data ResponseSource : Type 0 where
  upstream : ResponseSource
  backend : BackendLabel → ResponseSource

pub record CacheContext : Type 0 where
  pub status : CacheStatus
  pub read_mode : ReadMode
  pub source : ResponseSource

-- `CacheContext::default()`
abbrev pub default_context : CacheContext
default_context = record { status = miss; read_mode = direct; source = upstream }

-- The labels of a `CompositionFormat`.
pub record LayerLabels : Type 0 where
  pub l1_label : BackendLabel
  pub l2_label : BackendLabel

pub label_for_layer : LayerLabels → CompositionLayer → BackendLabel
label_for_layer f l1 = f.l1_label
label_for_layer f l2 = f.l2_label

pub data BoxContext : Type 0 where
  cache_context : CacheContext → BoxContext
  composition_context : BoxContext → CompositionLayer → LayerLabels → BoxContext

unfoldable pub status : BoxContext → CacheStatus
status (cache_context c) = c.status
status (composition_context inner layer format) = status inner

unfoldable pub set_status : BoxContext → CacheStatus → BoxContext
set_status (cache_context c) s = cache_context (record c { status = s })
set_status (composition_context inner layer format) s =
    composition_context (set_status inner s) layer format

unfoldable pub source : BoxContext → ResponseSource
source (cache_context c) = c.source
source (composition_context inner layer format) = source inner

unfoldable pub set_source : BoxContext → ResponseSource → BoxContext
set_source (cache_context c) s = cache_context (record c { source = s })
set_source (composition_context inner layer format) s =
    composition_context (set_source inner s) layer format

unfoldable pub should_refill : CompositionLayer → Bool
should_refill l1 = false
should_refill l2 = true

unfoldable pub read_mode : BoxContext → ReadMode
unfolding should_refill
read_mode (cache_context c) = c.read_mode
read_mode (composition_context inner layer format) = if should_refill layer then refill else direct

unfoldable pub set_read_mode : BoxContext → ReadMode → BoxContext
set_read_mode (cache_context c) m = cache_context (record c { read_mode = m })
set_read_mode (composition_context inner layer format) m =
    composition_context (set_read_mode inner m) layer format

-- `into_cache_context`, which `finalize_context` calls: it goes down to the innermost context.
unfoldable pub finalize_context : BoxContext → CacheContext
finalize_context (cache_context c) = c
finalize_context (composition_context inner layer format) = finalize_context inner

-- `upgrade_context`: wraps what was there.
unfoldable pub upgrade_context : BoxContext → CompositionLayer → LayerLabels → BoxContext
upgrade_context ctx layer format = composition_context ctx layer format

-- The two matches of `Context::merge_from`.
merge_status : BoxContext → CacheStatus → BoxContext
unfolding set_status
merge_status ctx hit = set_status ctx hit
merge_status ctx stale = set_status ctx stale
merge_status ctx miss = ctx

merge_source : BoxContext → ResponseSource → BackendLabel → BoxContext
unfolding set_source compose
merge_source ctx (backend inner) prefix = set_source ctx (backend (compose prefix inner))
merge_source ctx upstream prefix = ctx

unfoldable pub merge_from : BoxContext → BoxContext → BackendLabel → BoxContext
unfolding merge_status merge_source status source
merge_from ctx other prefix = merge_source (merge_status ctx (status other)) (source other) prefix
