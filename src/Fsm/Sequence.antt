-- ===== src/Fsm/Sequence.antt =====
-- Requests one after another: hitbox/src/fsm over a backend that keeps what was written last.
use hitbox.Prelude.{
  Bool, true, Option, none, some, [], ◌∷◌, ◌++◌, ◌≡◌, refl, ◌∙◌, arith, if◌then◌else◌, ap,
}
use hitbox.Core.Context.{
  BoxContext, BackendLabel, backend, default_context, hit, miss, upstream, status, set_status,
  set_source, read_mode, finalize_context,
}
use hitbox.Core.Value.{CacheValue, actual, cache_state}
use hitbox.Core.Policy.{cacheable, EnabledCacheConfig, enabled}
use hitbox.Core.Response.{ok}
use hitbox.Fsm.World.{Types, Env, Log, read, written}
use hitbox.Fsm.Steps.{entity_config}
use hitbox.Fsm.Answers.{start, fetched, serve, serve-hit, serve-miss_stored}

unfoldable pub marked_hit : BackendLabel → BoxContext
unfolding set_status set_source
marked_hit label = set_source (set_status start hit) (backend label)

-- What the `get` of a backend leaves in the context of a new request: the status Hit and the backend
-- as its source if there is a value, and nothing if there is none.
abbrev pub after_get : {A : Type 0} → BackendLabel → Option (CacheValue A) → BoxContext
after_get label none = start
after_get label (some v) = marked_hit label

module _ {t : Types} where
  -- The service as a request finds it after the effects of a log.
  unfoldable pub resume : Log t → Env t → Env t
  resume earlier e = record {
    check_request = λ log. e.check_request (log ++ earlier);
    check_response = λ log. e.check_response (log ++ earlier);
    from_cached = e.from_cached;
    call = λ log. e.call (log ++ earlier);
    now = λ log. e.now (log ++ earlier);
    get = λ log. e.get (log ++ earlier);
    set = λ log. e.set (log ++ earlier);
    check = λ log. e.check (log ++ earlier);
    await_response = λ log. e.await_response (log ++ earlier);
  }

  module _ (same : t.Key → t.Key → Bool) where
    -- The value of a key that was written last.
    unfoldable pub stored : t.Key → Log t → Option (CacheValue t.Cached)
    stored key [] = none
    stored key (written k v ∷ log) =
        let rest = stored key log in if same k key then some v else rest
    stored key (x ∷ log) = stored key log

    stored-append :
        (key : t.Key) (later earlier : Log t)
        → stored key later ≡ none
        → stored key (later ++ earlier) ≡ stored key earlier
    unfolding stored
    stored-append key [] earlier h = refl
    stored-append key (written k v ∷ log) earlier h =
        ground (arith, h, stored-append key log earlier)
    stored-append key (x ∷ log) earlier h = stored-append key log earlier h

    stored-written :
        (key : t.Key) (v : CacheValue t.Cached) (later earlier : Log t)
        → same key key ≡ true
        → stored key later ≡ none
        → stored key (later ++ (written key v ∷ earlier)) ≡ some v
    unfolding stored
    stored-written key v later earlier self quiet =
        stored-append key later (written key v ∷ earlier) quiet ∙ ground (arith, self)

  -- The log of a request that missed and whose response was stored.
  abbrev pub filled : t.Key → t.Req → CacheValue t.Cached → Log t
  filled key asked v = written key v ∷ fetched key asked

  -- A backend that keeps what was written last, starts empty, and whose `get` marks a value that it
  -- finds with the status Hit and its label; no concurrency limit, every future ready: where a
  -- request misses, its response is cacheable and the write succeeds and leaves the status at Miss,
  -- it is answered by the upstream and the value is stored; a later request of the same key,
  -- whatever was done in between but a write of that key, is answered by that value as long as it is
  -- fresh, with the status Hit and the backend as its source: the cache is read once and the
  -- upstream is not called.
  pub serve-resume :
      (e : Env t) (same : t.Key → t.Key → Bool) (config config' : EnabledCacheConfig) (key : t.Key)
      (label : BackendLabel) (request asked request' asked' : t.Req) (fresh : CacheValue t.Cached)
      (ctx : BoxContext) (later : Log t)
      → same key key ≡ true
      → ((log : Log t)
          → e.get log key start ≡ (ok (stored same key log), after_get label (stored same key log)))
      → e.check_request [] request ≡ cacheable (record { key = key; request = asked })
      → config.concurrency ≡ none
      → e.check_response
          (fetched key asked)
          (e.call (fetched key asked) asked)
          (entity_config (enabled config))
        ≡ cacheable fresh
      → e.set (fetched key asked) key fresh start ≡ (ok tt, ctx)
      → status ctx ≡ miss
      → stored same key later ≡ none
      → e.check_request (later ++ filled key asked fresh) request'
        ≡ cacheable (record { key = key; request = asked' })
      → cache_state fresh (e.now (read key ∷ (later ++ filled key asked fresh))) ≡ actual fresh
      → (serve e (enabled config) request
          ≡ some (
            e.from_cached fresh.data_,
            finalize_context (set_source ctx upstream),
            filled key asked fresh,
          ))
        × (serve (resume (later ++ filled key asked fresh) e) (enabled config') request'
            ≡ some (
              e.from_cached fresh.data_,
              record default_context { status = hit; source = backend label },
              read key ∷ [],
            ))
  unfolding resume stored marked_hit read_mode set_status set_source finalize_context
  serve-resume e same config config' key label request asked request' asked' fresh ctx later self
        keeps found free judged set_ kept quiet found' young =
      (
        serve-miss_stored e config request asked key found (ok none) fresh start ctx (ok tt)
            (keeps []) refl free judged set_ kept,
        serve-hit (resume (later ++ filled key asked fresh) e) config' request' asked' key found'
            fresh (after_get label (some fresh))
            (keeps (later ++ filled key asked fresh)
              ∙ ap (λ x. (ok x, after_get label x))
                  (stored-written same key fresh later (fetched key asked) self quiet))
            young refl,
      )
