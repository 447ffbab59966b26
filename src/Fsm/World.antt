-- ===== src/Fsm/World.antt =====
-- What the state machine of hitbox/src/fsm calls, as parameters: the request and response types,
-- the backend, the upstream service, the predicates and extractors, the concurrency manager
-- (hitbox/src/concurrency.rs has the trait) and the clock. Every call that others can see leaves an
-- `Effect` in a log, newest first, and every answer may depend on the whole log.
use hitbox.Prelude.{ℕ, Option, List}
use hitbox.Core.Context.{BoxContext}
use hitbox.Core.Value.{CacheValue}
use hitbox.Core.Policy.{CachePolicy, EntityPolicyConfig}
use hitbox.Core.Response.{Result}

pub record Types : Type 1 where
  pub Req : Type 0
  pub Res : Type 0
  pub Cached : Type 0
  pub Key : Type 0
  pub Permit : Type 0
  pub BackendError : Type 0

pub data ConcurrencyError : Type 0 where
  lagged : ℕ → ConcurrencyError
  closed : ConcurrencyError

-- The future of the source's `Await` is polled later, by `Env.await_response`.
pub data ConcurrencyDecision (Permit : Type 0) : Type 0 where
  proceed : Permit → ConcurrencyDecision Permit
  proceed_without_permit : ConcurrencyDecision Permit
  await : ConcurrencyDecision Permit

pub record CacheablePolicyData (t : Types) : Type 0 where
  pub key : t.Key
  pub request : t.Req

pub data Effect (t : Types) : Type 0 where
  called : t.Req → Effect t  -- `upstream.call`
  read : t.Key → Effect t  -- `backend.get`
  written : t.Key → CacheValue t.Cached → Effect t  -- `backend.set`
  admitted : t.Key → Effect t  -- `concurrency_manager.check` that gave a permit
  refused : t.Key → Effect t  -- `concurrency_manager.check` that gave none
  resolved : t.Key → CacheValue t.Cached → Effect t
  cleaned : t.Key → Effect t
  spawned : t.Key → t.Req → Effect t  -- `offload.spawn("revalidate", …)`

abbrev pub Log : Types → Type 0
Log t = List (Effect t)

pub record Env (t : Types) : Type 0 where
  -- `request.cache_policy(predicates, extractors)`
  pub check_request : Log t → t.Req → CachePolicy (CacheablePolicyData t) t.Req
  -- `response.cache_policy(predicates, config)`
  pub check_response : Log t → t.Res → EntityPolicyConfig → CachePolicy (CacheValue t.Cached) t.Res
  pub from_cached : t.Cached → t.Res
  pub call : Log t → t.Req → t.Res
  pub now : Log t → ℕ
  pub get :
      Log t → t.Key → BoxContext → Result t.BackendError (Option (CacheValue t.Cached)) × BoxContext
  pub set :
      Log t
      → t.Key
      → CacheValue t.Cached
      → BoxContext
      → Result t.BackendError (Unit {0}) × BoxContext
  pub check : Log t → t.Key → ℕ → ConcurrencyDecision t.Permit
  pub await_response : Log t → t.Key → Result ConcurrencyError t.Res
