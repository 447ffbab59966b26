-- ===== src/Core/Context/Laws.antt =====
-- Laws of the accessors of a context, composed contexts included.
use hitbox.Prelude.{◌≡◌, refl}
use hitbox.Core.Context.{
  BoxContext, cache_context, composition_context, CacheStatus, ResponseSource, status, set_status,
  source, set_source, read_mode, finalize_context,
}

pub status-set_status : (ctx : BoxContext) (s : CacheStatus) → status (set_status ctx s) ≡ s
unfolding status set_status
status-set_status (cache_context c) s = refl
status-set_status (composition_context inner layer f) s = status-set_status inner s

pub status-set_source :
    (ctx : BoxContext) (s : ResponseSource) → status (set_source ctx s) ≡ status ctx
unfolding status set_source
status-set_source (cache_context c) s = refl
status-set_source (composition_context inner layer f) s = status-set_source inner s

pub source-set_source : (ctx : BoxContext) (s : ResponseSource) → source (set_source ctx s) ≡ s
unfolding source set_source
source-set_source (cache_context c) s = refl
source-set_source (composition_context inner layer f) s = source-set_source inner s

pub source-set_status :
    (ctx : BoxContext) (s : CacheStatus) → source (set_status ctx s) ≡ source ctx
unfolding source set_status
source-set_status (cache_context c) s = refl
source-set_status (composition_context inner layer f) s = source-set_status inner s

pub read_mode-set_status :
    (ctx : BoxContext) (s : CacheStatus) → read_mode (set_status ctx s) ≡ read_mode ctx
unfolding read_mode set_status
read_mode-set_status (cache_context c) s = refl
read_mode-set_status (composition_context inner layer f) s = refl

pub status-finalize_context : (ctx : BoxContext) → (finalize_context ctx).status ≡ status ctx
unfolding status finalize_context
status-finalize_context (cache_context c) = refl
status-finalize_context (composition_context inner layer f) = status-finalize_context inner

pub source-finalize_context : (ctx : BoxContext) → (finalize_context ctx).source ≡ source ctx
unfolding source finalize_context
source-finalize_context (cache_context c) = refl
source-finalize_context (composition_context inner layer f) = source-finalize_context inner
