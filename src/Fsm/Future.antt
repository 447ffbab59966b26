-- ===== src/Fsm/Future.antt =====
-- hitbox/src/fsm/future.rs: `CacheFuture`, its constructors and its poll loop. Each round of the
-- loop is a `step`; `run` gives, for each round, whether the future that the state waits for is
-- ready. A round that is not ready returns `Pending` and leaves the future as it was.
use hitbox.Prelude.{Bool, true, false, not, ◌||◌, if◌then◌else◌, Option, none, some, List, [], ◌∷◌}
use hitbox.Core.Context.{
  BoxContext, cache_context, CacheContext, default_context, CacheStatus, hit, miss, upstream,
  status, set_source, finalize_context,
}
use hitbox.Core.Context
use hitbox.Core.Policy.{PolicyConfig}
use hitbox.Fsm.World.{Types, Log, Env, called, read, written, spawned}
use hitbox.Fsm.States.{State, OffloadData, PollUpstream, taken}
use hitbox.Fsm.Transitions.{
  initial_into_state, check_request_into_state, poll_cache_into_state, convert_into_state,
  handle_stale_into_state, await_into_state, poll_upstream_into_state, check_response_into_state,
  update_cache_into_state,
}
use hitbox.Fsm.Steps

-- `response_predicates` is whether the `Option` still holds the predicates.
pub record CacheFuture (t : Types) : Type 0 where
  pub cache_key : Option t.Key
  pub state : State t
  pub response_predicates : Bool
  pub log : Log t

pub data Step (t : Types) : Type 0 where
  next : CacheFuture t → Step t
  ready : t.Res → CacheContext → CacheFuture t → Step t
  panic : CacheFuture t → Step t

-- The context of the response: for a miss the source is the upstream.
unfoldable pub finish : CacheStatus → BoxContext → CacheContext
unfolding set_source finalize_context
finish miss ctx = finalize_context (set_source ctx upstream)
finish hit ctx = finalize_context ctx
finish Context.stale ctx = finalize_context ctx

-- What a schedule of rounds leads to; `pending` is a schedule that ran out.
pub data Poll (t : Types) : Type 0 where
  pending : CacheFuture t → Poll t
  done : t.Res → CacheContext → CacheFuture t → Poll t
  panicked : CacheFuture t → Poll t

module _ {t : Types} where
  unfoldable pub new : t.Req → CacheFuture t
  new request = record {
    cache_key = none;
    state = State.initial (record { request = request; ctx = cache_context default_context });
    response_predicates = true;
    log = [];
  }

  unfoldable pub revalidate : t.Key → t.Req → Log t → CacheFuture t
  revalidate cache_key request log = record {
    cache_key = some cache_key;
    state =
        State.poll_upstream request (record {
          permit = none;
          ctx = cache_context default_context;
          cache_key = some cache_key;
        });
    response_predicates = true;
    log = called request ∷ log;
  }

  -- `if let Some(offload_data) = … && let Some(response_predicates) = this.response_predicates.take()`
  -- (`take` runs only where the first pattern matches).
  unfoldable pub offload : Option (OffloadData t) → Bool → Log t → Bool × Log t
  offload (some d) true log = (false, spawned d.cache_key d.request ∷ log)
  offload (some d) false log = (false, log)
  offload none predicates log = (predicates, log)

  -- `response_predicates.take().expect(…)`
  unfoldable pub poll_upstream :
      Env t → PolicyConfig → t.Req → PollUpstream t → Bool → CacheFuture t → Step t
  unfolding Steps.poll_upstream poll_upstream_into_state
  poll_upstream e policy request s true m = next (record m {
    state = poll_upstream_into_state (Steps.poll_upstream s (e.call m.log request) policy);
    response_predicates = false;
  })
  poll_upstream e policy request s false m = panic m

  unfoldable pub dispatch : Env t → PolicyConfig → State t → CacheFuture t → Step t
  unfolding Steps.initial initial_into_state Steps.check_request_cache_policy
      check_request_into_state Steps.poll_cache poll_cache_into_state Steps.convert_response
      convert_into_state Steps.handle_stale handle_stale_into_state offload Steps.await_response
      await_into_state poll_upstream Steps.check_response_cache_policy check_response_into_state
      Steps.update_cache update_cache_into_state finish status
  dispatch e policy (State.initial s) m =
      let (transition, log) = Steps.initial s policy m.log in
      next (record m { state = initial_into_state transition; log = log })
  dispatch e policy (State.check_request_cache_policy request s) m =
      let (transition, key, log) =
        Steps.check_request_cache_policy s (e.check_request m.log request) m.cache_key m.log in
      next (record m { cache_key = key; state = check_request_into_state transition; log = log })
  dispatch e policy (State.poll_cache future s) m =
      let (result, ctx) = e.get m.log future.key future.ctx in
      let (transition, log) = Steps.poll_cache e s result ctx policy (read future.key ∷ m.log) in
      next (record m { state = poll_cache_into_state transition; log = log })
  dispatch e policy (State.await_response key s) m =
      let (transition, log) = Steps.await_response s (e.await_response m.log key) m.log in
      next (record m { state = await_into_state transition; log = log })
  dispatch e policy (State.convert_response future s) m = next (record m {
    state = convert_into_state (Steps.convert_response s (e.from_cached future.cached) future.ctx);
  })
  dispatch e policy (State.handle_stale future s) m =
      let (transition, offload_data, log) =
        Steps.handle_stale s (e.from_cached future.cached) future.ctx policy m.log in
      let (predicates, log') = offload offload_data m.response_predicates log in
      next (record m {
        state = handle_stale_into_state transition;
        response_predicates = predicates;
        log = log';
      })
  dispatch e policy (State.poll_upstream request s) m =
      poll_upstream e policy request s m.response_predicates m
  dispatch e policy (State.check_response_cache_policy future s) m =
      let (transition, log) =
        Steps.check_response_cache_policy s (e.check_response m.log future.response future.config)
          m.log in
      next (record m { state = check_response_into_state transition; log = log })
  dispatch e policy (State.update_cache future) m =
      let (backend_result, ctx) = e.set m.log future.key future.value future.ctx in
      next (record m {
        state = update_cache_into_state (Steps.update_cache (e.from_cached future.value.data_) ctx);
        log = written future.key future.value ∷ m.log;
      })
  dispatch e policy (State.response s) m =
      ready s.response (finish (status s.ctx) s.ctx) (record m { state = taken })
  dispatch e policy taken m = panic m

  unfoldable pub step : Env t → PolicyConfig → CacheFuture t → Step t
  unfolding dispatch
  step e policy m = dispatch e policy m.state m

  -- Whether the state polls a future.
  unfoldable pub awaits : State t → Bool
  awaits (State.initial s) = false
  awaits (State.response s) = false
  awaits taken = false
  awaits _ = true

  abbrev pub continue : (CacheFuture t → Poll t) → Step t → Poll t
  continue rest (next m) = rest m
  continue rest (ready response ctx m) = done response ctx m
  continue rest (panic m) = panicked m

  unfoldable pub run : Env t → PolicyConfig → List Bool → CacheFuture t → Poll t
  run e policy [] m = pending m
  run e policy (is_ready ∷ rest) m =
      let polled = continue (run e policy rest) (step e policy m) in
      let later = run e policy rest m in if is_ready || not (awaits m.state) then polled else later
