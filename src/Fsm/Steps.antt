-- ===== src/Fsm/Steps.antt =====
-- hitbox/src/fsm/states.rs: the `transition` method of each state. A method takes the log and
-- gives it back with the effects of its calls; an upstream call is made when its future is.
use hitbox.Prelude.{ℕ, Option, none, some, ◌∷◌}
use hitbox.Core.Context.{BoxContext, ReadMode, refill, direct, hit, miss, set_status, read_mode}
use hitbox.Core.Context
use hitbox.Core.Value.{CacheValue, CacheState, actual, expired, cache_state}
use hitbox.Core.Value
use hitbox.Core.Policy.{
  CachePolicy, cacheable, non_cacheable, EntityPolicyConfig, default_entity_config, StalePolicy,
  return, revalidate, offload_revalidate, PolicyConfig, enabled, disabled,
}
use hitbox.Core.Response.{Result, ok, err}
use hitbox.Fsm.World.{
  Types, Log, Env, called, admitted, refused, resolved, cleaned, CacheablePolicyData,
  ConcurrencyDecision, proceed, proceed_without_permit, await, ConcurrencyError, lagged, closed,
}
use hitbox.Fsm.States.{
  Initial, PollUpstream, CheckResponseCachePolicy, CheckRequestCachePolicy, PollCache,
  ConvertResponse, HandleStale, OffloadData, AwaitResponse,
}
use hitbox.Fsm.Transitions.{
  InitialTransition, CheckRequestCachePolicyTransition, PollCacheTransition,
  ConvertResponseTransition, HandleStaleTransition, AwaitResponseTransition, PollUpstreamTransition,
  CheckResponseCachePolicyTransition, UpdateCacheTransition,
}

-- `cache_result.unwrap_or_default()`: an error of the backend is a miss.
abbrev pub unwrap_or_default : {A E : Type 0} → Result E (Option A) → Option A
unwrap_or_default (ok found) = found
unwrap_or_default (err e) = none

abbrev concurrency_of : PolicyConfig → Option ℕ
concurrency_of (enabled config) = config.concurrency
concurrency_of disabled = none

abbrev stale_policy_of : PolicyConfig → StalePolicy
stale_policy_of (enabled config) = config.policy
stale_policy_of disabled = return

unfoldable pub entity_config : PolicyConfig → EntityPolicyConfig
entity_config (enabled config) = record { ttl = config.ttl; stale_ttl = config.stale }
entity_config disabled = default_entity_config

module _ {t : Types} where
  unfoldable pub initial : Initial t → PolicyConfig → Log t → InitialTransition t × Log t
  initial s (enabled config) log =
      (InitialTransition.check_request_cache_policy s.request s.ctx, log)
  initial s disabled log = (InitialTransition.poll_upstream s.request s.ctx, called s.request ∷ log)

  -- The second result is what `cache_key_storage` becomes.
  unfoldable pub check_request_cache_policy :
      CheckRequestCachePolicy t
      → CachePolicy (CacheablePolicyData t) t.Req
      → Option t.Key
      → Log t
      → CheckRequestCachePolicyTransition t × Option t.Key × Log t
  check_request_cache_policy s (cacheable found) storage log = (
    CheckRequestCachePolicyTransition.poll_cache (record { key = found.key; ctx = s.ctx })
        found.request found.key,
    some found.key,
    log,
  )
  check_request_cache_policy s (non_cacheable req) storage log =
      (CheckRequestCachePolicyTransition.poll_upstream req s.ctx, storage, called req ∷ log)

  -- The match on `ConcurrencyDecision` of `transition_to_upstream`.
  to_upstream :
      PollCache t
      → BoxContext
      → ConcurrencyDecision t.Permit
      → Log t
      → PollCacheTransition t × Log t
  to_upstream s ctx (proceed permit) log = (
    PollCacheTransition.poll_upstream s.request (some permit) ctx s.cache_key,
    called s.request ∷ admitted s.cache_key ∷ log,
  )
  to_upstream s ctx proceed_without_permit log = (
    PollCacheTransition.poll_upstream s.request none ctx s.cache_key,
    called s.request ∷ refused s.cache_key ∷ log,
  )
  to_upstream s ctx await log = (
    PollCacheTransition.await_response s.cache_key s.request ctx s.cache_key,
    refused s.cache_key ∷ log,
  )

  limited : Env t → PollCache t → BoxContext → Option ℕ → Log t → PollCacheTransition t × Log t
  unfolding to_upstream
  limited e s ctx (some concurrency) log =
      to_upstream s ctx (e.check log s.cache_key concurrency) log
  limited e s ctx none log =
      (PollCacheTransition.poll_upstream s.request none ctx s.cache_key, called s.request ∷ log)

  transition_to_upstream :
      Env t → PollCache t → BoxContext → PolicyConfig → Log t → PollCacheTransition t × Log t
  unfolding limited
  transition_to_upstream e s ctx policy log = limited e s ctx (concurrency_of policy) log

  -- The branches of a hit that is `Actual`.
  serve_actual : PollCache t → CacheValue t.Cached → BoxContext → ReadMode → PollCacheTransition t
  serve_actual s value ctx refill =
      PollCacheTransition.update_cache (record { key = s.cache_key; value = value; ctx = ctx })
  serve_actual s value ctx direct =
      PollCacheTransition.convert_response (record { cached = value.data_; ctx = ctx }) s.cache_key

  on_cache_state :
      Env t
      → PollCache t
      → CacheState (CacheValue t.Cached)
      → BoxContext
      → PolicyConfig
      → Log t
      → PollCacheTransition t × Log t
  unfolding serve_actual transition_to_upstream read_mode set_status
  on_cache_state e s (actual value) ctx policy log = (serve_actual s value ctx (read_mode ctx), log)
  on_cache_state e s (Value.stale value) ctx policy log = (
    PollCacheTransition.handle_stale (record { cached = value.data_; ctx = ctx }) s.request
        s.cache_key,
    log,
  )
  on_cache_state e s (expired value) ctx policy log =
      transition_to_upstream e s (set_status ctx miss) policy log

  on_cached :
      Env t
      → PollCache t
      → Option (CacheValue t.Cached)
      → BoxContext
      → PolicyConfig
      → Log t
      → PollCacheTransition t × Log t
  unfolding on_cache_state cache_state
  on_cached e s (some value) ctx policy log =
      on_cache_state e s (cache_state value (e.now log)) (set_status ctx hit) policy log
  on_cached e s none ctx policy log = transition_to_upstream e s ctx policy log

  unfoldable pub poll_cache :
      Env t
      → PollCache t
      → Result t.BackendError (Option (CacheValue t.Cached))
      → BoxContext
      → PolicyConfig
      → Log t
      → PollCacheTransition t × Log t
  unfolding on_cached
  poll_cache e s cache_result ctx policy log =
      on_cached e s (unwrap_or_default cache_result) ctx policy log

  unfoldable pub convert_response :
      ConvertResponse t → t.Res → BoxContext → ConvertResponseTransition t
  convert_response s response ctx =
      ConvertResponseTransition.response (record { response = response; ctx = ctx })

  on_stale :
      HandleStale t
      → t.Res
      → BoxContext
      → StalePolicy
      → Log t
      → HandleStaleTransition t × Option (OffloadData t) × Log t
  unfolding set_status
  on_stale s response ctx return log = (
    HandleStaleTransition.response
        (record { response = response; ctx = set_status ctx Context.stale }),
    none,
    log,
  )
  on_stale s response ctx revalidate log = (
    HandleStaleTransition.revalidate s.request (set_status ctx miss) s.cache_key,
    none,
    called s.request ∷ log,
  )
  on_stale s response ctx offload_revalidate log = (
    HandleStaleTransition.response
        (record { response = response; ctx = set_status ctx Context.stale }),
    some (record { request = s.request; cache_key = s.cache_key }),
    log,
  )

  unfoldable pub handle_stale :
      HandleStale t
      → t.Res
      → BoxContext
      → PolicyConfig
      → Log t
      → HandleStaleTransition t × Option (OffloadData t) × Log t
  unfolding on_stale
  handle_stale s response ctx policy log = on_stale s response ctx (stale_policy_of policy) log

  -- The cleanup of `AwaitResponse::transition`, made for a closed channel alone.
  abbrev clean_if_closed : ConcurrencyError → t.Key → Log t → Log t
  clean_if_closed (lagged n) key log = log
  clean_if_closed closed key log = cleaned key ∷ log

  unfoldable pub await_response :
      AwaitResponse t → Result ConcurrencyError t.Res → Log t → AwaitResponseTransition t × Log t
  await_response s (ok response) log =
      (AwaitResponseTransition.response (record { response = response; ctx = s.ctx }), log)
  await_response s (err e) log = (
    AwaitResponseTransition.poll_upstream s.request s.ctx s.cache_key,
    called s.request ∷ clean_if_closed e s.cache_key log,
  )

  with_key : PollUpstream t → Option t.Key → t.Res → PolicyConfig → PollUpstreamTransition t
  unfolding entity_config
  with_key s (some key) upstream_result policy =
      PollUpstreamTransition.check_response_cache_policy
        (record { response = upstream_result; config = entity_config policy }) s.permit s.ctx key
  with_key s none upstream_result policy =
      PollUpstreamTransition.response (record { response = upstream_result; ctx = s.ctx })

  unfoldable pub poll_upstream : PollUpstream t → t.Res → PolicyConfig → PollUpstreamTransition t
  unfolding with_key
  poll_upstream s upstream_result policy = with_key s s.cache_key upstream_result policy

  -- `resolve` and `cleanup` are called by the holder of a permit alone.
  abbrev resolve_if : Option t.Permit → t.Key → CacheValue t.Cached → Log t → Log t
  resolve_if (some permit) key value log = resolved key value ∷ log
  resolve_if none key value log = log

  abbrev clean_if : Option t.Permit → t.Key → Log t → Log t
  clean_if (some permit) key log = cleaned key ∷ log
  clean_if none key log = log

  unfoldable pub check_response_cache_policy :
      CheckResponseCachePolicy t
      → CachePolicy (CacheValue t.Cached) t.Res
      → Log t
      → CheckResponseCachePolicyTransition t × Log t
  check_response_cache_policy s (cacheable value) log = (
    CheckResponseCachePolicyTransition.update_cache
        (record { key = s.cache_key; value = value; ctx = s.ctx }),
    resolve_if s.permit s.cache_key value log,
  )
  check_response_cache_policy s (non_cacheable response) log = (
    CheckResponseCachePolicyTransition.response (record { response = response; ctx = s.ctx }),
    clean_if s.permit s.cache_key log,
  )

  unfoldable pub update_cache : t.Res → BoxContext → UpdateCacheTransition t
  update_cache response ctx =
      UpdateCacheTransition.response (record { response = response; ctx = ctx })
