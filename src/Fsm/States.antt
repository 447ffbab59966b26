-- ===== src/Fsm/States.antt =====
-- hitbox/src/fsm/states.rs: the structs of the states and the enum `State`. A future is the data
-- that it was made from; the tracing spans and the start times are left out, and so is the upstream
-- object, which is `Env.call`.
use hitbox.Prelude.{Option}
use hitbox.Core.Context.{BoxContext}
use hitbox.Core.Value.{CacheValue}
use hitbox.Core.Policy.{EntityPolicyConfig}
use hitbox.Fsm.World.{Types}

-- `backend.get(key, ctx)`
pub record PollCacheFuture (t : Types) : Type 0 where
  pub key : t.Key
  pub ctx : BoxContext

-- `backend.set(key, value, ctx)` and then `Res::from_cached(value)`
pub record UpdateCacheFuture (t : Types) : Type 0 where
  pub key : t.Key
  pub value : CacheValue t.Cached
  pub ctx : BoxContext

pub record ConvertResponseFuture (t : Types) : Type 0 where
  pub cached : t.Cached
  pub ctx : BoxContext

-- `response.cache_policy(predicates, config)`
pub record ResponsePolicyFuture (t : Types) : Type 0 where
  pub response : t.Res
  pub config : EntityPolicyConfig

pub record Initial (t : Types) : Type 0 where
  pub request : t.Req
  pub ctx : BoxContext

pub record Response (t : Types) : Type 0 where
  pub response : t.Res
  pub ctx : BoxContext

pub record PollUpstream (t : Types) : Type 0 where
  pub permit : Option t.Permit
  pub ctx : BoxContext
  pub cache_key : Option t.Key

pub record CheckResponseCachePolicy (t : Types) : Type 0 where
  pub permit : Option t.Permit
  pub ctx : BoxContext
  pub cache_key : t.Key

pub record CheckRequestCachePolicy (t : Types) : Type 0 where
  pub ctx : BoxContext

pub record PollCache (t : Types) : Type 0 where
  pub request : t.Req
  pub cache_key : t.Key

pub record ConvertResponse (t : Types) : Type 0 where
  pub cache_key : t.Key

pub record HandleStale (t : Types) : Type 0 where
  pub request : t.Req
  pub cache_key : t.Key

pub record OffloadData (t : Types) : Type 0 where
  pub request : t.Req
  pub cache_key : t.Key

pub record AwaitResponse (t : Types) : Type 0 where
  pub request : t.Req
  pub ctx : BoxContext
  pub cache_key : t.Key

-- The source's `Option` around each struct is `None` only inside one round of the poll loop, but
-- for `Response(None)`, which is `taken`.
pub data State (t : Types) : Type 0 where
  initial : Initial t → State t
  check_request_cache_policy : t.Req → CheckRequestCachePolicy t → State t
  poll_cache : PollCacheFuture t → PollCache t → State t
  convert_response : ConvertResponseFuture t → ConvertResponse t → State t
  handle_stale : ConvertResponseFuture t → HandleStale t → State t
  await_response : t.Key → AwaitResponse t → State t
  poll_upstream : t.Req → PollUpstream t → State t
  check_response_cache_policy : ResponsePolicyFuture t → CheckResponseCachePolicy t → State t
  update_cache : UpdateCacheFuture t → State t
  response : Response t → State t
  taken : State t
