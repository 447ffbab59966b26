-- ===== src/Fsm/Transitions.antt =====
-- hitbox/src/fsm/transitions.rs: the outcomes of each state, and the states that they lead to.
use hitbox.Prelude.{Option, none, some}
use hitbox.Core.Context.{BoxContext}
use hitbox.Fsm.World.{Types}
use hitbox.Fsm.States.{
  PollCacheFuture, UpdateCacheFuture, ConvertResponseFuture, ResponsePolicyFuture, Response, State,
}

pub data InitialTransition (t : Types) : Type 0 where
  check_request_cache_policy : t.Req → BoxContext → InitialTransition t
  poll_upstream : t.Req → BoxContext → InitialTransition t

pub data CheckRequestCachePolicyTransition (t : Types) : Type 0 where
  poll_cache : PollCacheFuture t → t.Req → t.Key → CheckRequestCachePolicyTransition t
  poll_upstream : t.Req → BoxContext → CheckRequestCachePolicyTransition t

pub data PollCacheTransition (t : Types) : Type 0 where
  update_cache : UpdateCacheFuture t → PollCacheTransition t
  convert_response : ConvertResponseFuture t → t.Key → PollCacheTransition t
  handle_stale : ConvertResponseFuture t → t.Req → t.Key → PollCacheTransition t
  poll_upstream : t.Req → Option t.Permit → BoxContext → t.Key → PollCacheTransition t
  await_response : t.Key → t.Req → BoxContext → t.Key → PollCacheTransition t

pub data ConvertResponseTransition (t : Types) : Type 0 where
  response : Response t → ConvertResponseTransition t

pub data HandleStaleTransition (t : Types) : Type 0 where
  response : Response t → HandleStaleTransition t
  revalidate : t.Req → BoxContext → t.Key → HandleStaleTransition t

pub data AwaitResponseTransition (t : Types) : Type 0 where
  response : Response t → AwaitResponseTransition t
  poll_upstream : t.Req → BoxContext → t.Key → AwaitResponseTransition t

pub data PollUpstreamTransition (t : Types) : Type 0 where
  check_response_cache_policy :
      ResponsePolicyFuture t → Option t.Permit → BoxContext → t.Key → PollUpstreamTransition t
  response : Response t → PollUpstreamTransition t

pub data CheckResponseCachePolicyTransition (t : Types) : Type 0 where
  update_cache : UpdateCacheFuture t → CheckResponseCachePolicyTransition t
  response : Response t → CheckResponseCachePolicyTransition t

pub data UpdateCacheTransition (t : Types) : Type 0 where
  response : Response t → UpdateCacheTransition t

-- `into_state` of each.
module _ {t : Types} where
  unfoldable pub initial_into_state : InitialTransition t → State t
  initial_into_state (InitialTransition.check_request_cache_policy req ctx) =
      State.check_request_cache_policy req (record { ctx = ctx })
  initial_into_state (InitialTransition.poll_upstream req ctx) =
      State.poll_upstream req (record { permit = none; ctx = ctx; cache_key = none })

  unfoldable pub check_request_into_state : CheckRequestCachePolicyTransition t → State t
  check_request_into_state (CheckRequestCachePolicyTransition.poll_cache future req key) =
      State.poll_cache future (record { request = req; cache_key = key })
  check_request_into_state (CheckRequestCachePolicyTransition.poll_upstream req ctx) =
      State.poll_upstream req (record { permit = none; ctx = ctx; cache_key = none })

  unfoldable pub poll_cache_into_state : PollCacheTransition t → State t
  poll_cache_into_state (PollCacheTransition.update_cache future) = State.update_cache future
  poll_cache_into_state (PollCacheTransition.convert_response future key) =
      State.convert_response future (record { cache_key = key })
  poll_cache_into_state (PollCacheTransition.handle_stale future req key) =
      State.handle_stale future (record { request = req; cache_key = key })
  poll_cache_into_state (PollCacheTransition.poll_upstream req permit ctx key) =
      State.poll_upstream req (record { permit = permit; ctx = ctx; cache_key = some key })
  poll_cache_into_state (PollCacheTransition.await_response future req ctx key) =
      State.await_response future (record { request = req; ctx = ctx; cache_key = key })

  unfoldable pub convert_into_state : ConvertResponseTransition t → State t
  convert_into_state (ConvertResponseTransition.response s) = State.response s

  unfoldable pub handle_stale_into_state : HandleStaleTransition t → State t
  handle_stale_into_state (HandleStaleTransition.response s) = State.response s
  handle_stale_into_state (HandleStaleTransition.revalidate req ctx key) =
      State.poll_upstream req (record { permit = none; ctx = ctx; cache_key = some key })

  unfoldable pub await_into_state : AwaitResponseTransition t → State t
  await_into_state (AwaitResponseTransition.response s) = State.response s
  await_into_state (AwaitResponseTransition.poll_upstream req ctx key) =
      State.poll_upstream req (record { permit = none; ctx = ctx; cache_key = some key })

  unfoldable pub poll_upstream_into_state : PollUpstreamTransition t → State t
  poll_upstream_into_state
        (PollUpstreamTransition.check_response_cache_policy future permit ctx key) =
      State.check_response_cache_policy future
        (record { permit = permit; ctx = ctx; cache_key = key })
  poll_upstream_into_state (PollUpstreamTransition.response s) = State.response s

  unfoldable pub check_response_into_state : CheckResponseCachePolicyTransition t → State t
  check_response_into_state (CheckResponseCachePolicyTransition.update_cache future) =
      State.update_cache future
  check_response_into_state (CheckResponseCachePolicyTransition.response s) = State.response s

  unfoldable pub update_cache_into_state : UpdateCacheTransition t → State t
  update_cache_into_state (UpdateCacheTransition.response s) = State.response s
