-- ===== src/Fsm/Answers.antt =====
-- What a request is answered with: runs of hitbox/src/fsm in which every future is ready.
use hitbox.Prelude.{ℕ, Bool, true, Option, none, some, List, [], ◌∷◌, ◌≡◌, arith}
use hitbox.Core.Context.{
  BoxContext, cache_context, composition_context, CacheContext, default_context, ReadMode, direct,
  refill, hit, miss, upstream, status, set_status, source, set_source, read_mode, finalize_context,
}
use hitbox.Core.Context
use hitbox.Core.Context.Laws.{read_mode-set_status, status-set_status}
use hitbox.Core.Value.{CacheValue, actual, expired, cache_state}
use hitbox.Core.Value
use hitbox.Core.Policy.{
  cacheable, non_cacheable, EnabledCacheConfig, PolicyConfig, enabled, return, revalidate,
  offload_revalidate,
}
use hitbox.Core.Response.{Result, ok, err}
use hitbox.Fsm.World.{
  Types, Env, Log, called, read, written, spawned, refused, cleaned, await, closed,
}
use hitbox.Fsm.Steps.{unwrap_or_default, entity_config}
use hitbox.Fsm.Future.{Poll, pending, done, panicked, step, run, new}

abbrev pub all_ready : List Bool
all_ready = true ∷ true ∷ true ∷ true ∷ true ∷ true ∷ true ∷ true ∷ []

-- The context that a request starts with.
abbrev pub start : BoxContext
start = cache_context default_context

module _ {t : Types} where
  -- The log of a request whose upstream was called after the cache was read.
  abbrev pub fetched : t.Key → t.Req → Log t
  fetched key asked = called asked ∷ read key ∷ []

  -- The same, after waiting for another request in vain.
  abbrev pub after_await : t.Key → t.Req → Log t
  after_await key asked = called asked ∷ cleaned key ∷ refused key ∷ read key ∷ []

  abbrev pub answer : Poll t → Option (t.Res × CacheContext × Log t)
  answer (pending m) = none
  answer (done response ctx m) = some (response, ctx, m.log)
  answer (panicked m) = none

  abbrev pub serve : Env t → PolicyConfig → t.Req → Option (t.Res × CacheContext × Log t)
  serve e policy request = answer (run e policy all_ready (new request))

module _ {t : Types} (e : Env t) (config : EnabledCacheConfig) (request asked : t.Req) (key : t.Key)
    (found : e.check_request [] request ≡ cacheable (record { key = key; request = asked })) where
  -- With caching on and every future ready, a cacheable request whose value is still fresh and
  -- was read in direct mode is answered by that value: the status is Hit, and nothing but that
  -- one read is done.
  pub serve-hit :
      (v : CacheValue t.Cached) (ctx : BoxContext)
      → e.get [] key start ≡ (ok (some v), ctx)
      → cache_state v (e.now (read key ∷ [])) ≡ actual v
      → read_mode ctx ≡ direct
      → serve e (enabled config) request
        ≡ some (e.from_cached v.data_, finalize_context (set_status ctx hit), read key ∷ [])
  unfolding run step new
  serve-hit v ctx got fresh mode =
      ground
        (arith, found, got, fresh, mode, read_mode-set_status ctx hit, status-set_status ctx hit)

  -- With caching on and every future ready, a fresh value that was read in refill mode is written
  -- back once before it answers, whether or not the write succeeds; the write leaves the status
  -- at Hit.
  pub serve-refill :
      (v : CacheValue t.Cached) (ctx ctx' : BoxContext)
      (written_ : Result t.BackendError (Unit {0}))
      → e.get [] key start ≡ (ok (some v), ctx)
      → cache_state v (e.now (read key ∷ [])) ≡ actual v
      → read_mode ctx ≡ refill
      → e.set (read key ∷ []) key v (set_status ctx hit) ≡ (written_, ctx')
      → status ctx' ≡ hit
      → serve e (enabled config) request
        ≡ some (e.from_cached v.data_, finalize_context ctx', written key v ∷ read key ∷ [])
  unfolding run step new
  serve-refill v ctx ctx' written_ got fresh mode set_ kept =
      ground (arith, found, got, fresh, mode, set_, kept, read_mode-set_status ctx hit)

  -- With every future ready, a stale value under the policy Return answers: the status is Stale,
  -- and nothing but the read of the cache is done.
  pub serve-stale_return :
      (v : CacheValue t.Cached) (ctx : BoxContext)
      → e.get [] key start ≡ (ok (some v), ctx)
      → cache_state v (e.now (read key ∷ [])) ≡ Value.stale v
      → config.policy ≡ return
      → serve e (enabled config) request
        ≡ some (
          e.from_cached v.data_,
          finalize_context (set_status (set_status ctx hit) Context.stale),
          read key ∷ [],
        )
  unfolding run step new
  serve-stale_return v ctx got old policy =
      ground (arith, found, got, old, policy, status-set_status (set_status ctx hit) Context.stale)

  -- With every future ready, a stale value under the policy OffloadRevalidate answers with the
  -- status Stale, and a revalidation of its key and request is spawned.
  pub serve-stale_offload :
      (v : CacheValue t.Cached) (ctx : BoxContext)
      → e.get [] key start ≡ (ok (some v), ctx)
      → cache_state v (e.now (read key ∷ [])) ≡ Value.stale v
      → config.policy ≡ offload_revalidate
      → serve e (enabled config) request
        ≡ some (
          e.from_cached v.data_,
          finalize_context (set_status (set_status ctx hit) Context.stale),
          spawned key asked ∷ read key ∷ [],
        )
  unfolding run step new
  serve-stale_offload v ctx got old policy =
      ground (arith, found, got, old, policy, status-set_status (set_status ctx hit) Context.stale)

  -- With every future ready, a stale value under the policy Revalidate is not served: the
  -- upstream is called, and its response, which is cacheable, is stored and answers with the
  -- upstream as its source, whether or not the write succeeds; the write leaves the status at
  -- Miss.
  pub serve-stale_revalidate :
      (v fresh : CacheValue t.Cached) (ctx ctx' : BoxContext)
      (written_ : Result t.BackendError (Unit {0}))
      → e.get [] key start ≡ (ok (some v), ctx)
      → cache_state v (e.now (read key ∷ [])) ≡ Value.stale v
      → config.policy ≡ revalidate
      → e.check_response
          (fetched key asked)
          (e.call (fetched key asked) asked)
          (entity_config (enabled config))
        ≡ cacheable fresh
      → e.set (fetched key asked) key fresh (set_status (set_status ctx hit) miss)
        ≡ (written_, ctx')
      → status ctx' ≡ miss
      → serve e (enabled config) request
        ≡ some (
          e.from_cached fresh.data_,
          finalize_context (set_source ctx' upstream),
          written key fresh ∷ fetched key asked,
        )
  unfolding run step new
  serve-stale_revalidate v fresh ctx ctx' written_ got old policy judged set_ kept =
      ground (arith, found, got, old, policy, judged, set_, kept)

  -- With every future ready and no concurrency limit, where the cache had no value or its read
  -- failed: the upstream is called, and its response, which is cacheable, is stored and answers,
  -- whether or not the write succeeds; the write leaves the status at Miss.
  pub serve-miss_stored :
      (result : Result t.BackendError (Option (CacheValue t.Cached))) (fresh : CacheValue t.Cached)
      (ctx ctx' : BoxContext) (written_ : Result t.BackendError (Unit {0}))
      → e.get [] key start ≡ (result, ctx)
      → unwrap_or_default result ≡ none
      → config.concurrency ≡ none
      → e.check_response
          (fetched key asked)
          (e.call (fetched key asked) asked)
          (entity_config (enabled config))
        ≡ cacheable fresh
      → e.set (fetched key asked) key fresh ctx ≡ (written_, ctx')
      → status ctx' ≡ miss
      → serve e (enabled config) request
        ≡ some (
          e.from_cached fresh.data_,
          finalize_context (set_source ctx' upstream),
          written key fresh ∷ fetched key asked,
        )
  unfolding run step new
  serve-miss_stored result fresh ctx ctx' written_ got missing free judged set_ kept =
      ground (arith, found, got, missing, free, judged, set_, kept)

  -- With every future ready and no concurrency limit, an expired value counts as none: the
  -- upstream is called, and its response, which is not cacheable, is handed on as it is, with the
  -- status Miss, and not stored.
  pub serve-expired_not_stored :
      (v : CacheValue t.Cached) (response : t.Res) (ctx : BoxContext)
      → e.get [] key start ≡ (ok (some v), ctx)
      → cache_state v (e.now (read key ∷ [])) ≡ expired v
      → config.concurrency ≡ none
      → e.check_response
          (fetched key asked)
          (e.call (fetched key asked) asked)
          (entity_config (enabled config))
        ≡ non_cacheable response
      → serve e (enabled config) request
        ≡ some (
          response,
          finalize_context (set_source (set_status (set_status ctx hit) miss) upstream),
          fetched key asked,
        )
  unfolding run step new
  serve-expired_not_stored v response ctx got old free judged =
      ground (arith, found, got, old, free, judged, status-set_status (set_status ctx hit) miss)

  -- With every future ready, a request that missed, was told to wait for another one, and then
  -- that the channel is closed, cleans up the entry of its key, calls the upstream, and stores
  -- its response, which is cacheable, whether or not the write succeeds; the write leaves the
  -- status at Miss.
  pub serve-await_closed :
      (result : Result t.BackendError (Option (CacheValue t.Cached))) (fresh : CacheValue t.Cached)
      (limit : ℕ) (ctx ctx' : BoxContext) (written_ : Result t.BackendError (Unit {0}))
      → e.get [] key start ≡ (result, ctx)
      → unwrap_or_default result ≡ none
      → config.concurrency ≡ some limit
      → e.check (read key ∷ []) key limit ≡ await
      → e.await_response (refused key ∷ read key ∷ []) key ≡ err closed
      → e.check_response
          (after_await key asked)
          (e.call (after_await key asked) asked)
          (entity_config (enabled config))
        ≡ cacheable fresh
      → e.set (after_await key asked) key fresh ctx ≡ (written_, ctx')
      → status ctx' ≡ miss
      → serve e (enabled config) request
        ≡ some (
          e.from_cached fresh.data_,
          finalize_context (set_source ctx' upstream),
          written key fresh ∷ after_await key asked,
        )
  unfolding run step new
  serve-await_closed result fresh limit ctx ctx' written_ got missing free waits broken judged set_
        kept =
      ground (arith, found, got, missing, free, waits, broken, judged, set_, kept)
