-- ===== src/Fsm/Keys.antt =====
-- Every access to the cache and to the concurrency manager in hitbox/src/fsm is by the one key that
-- the extractors gave.
use hitbox.Prelude.{Bool, Option, none, some, List, [], ◌≡◌, arith, All}
use hitbox.Core.Policy.{PolicyConfig}
use hitbox.Fsm.World.{
  Types, Env, Effect, Log, called, read, written, admitted, refused, resolved, cleaned, spawned,
}
use hitbox.Fsm.States.{State}
use hitbox.Fsm.Future.{CacheFuture, step, run, new, revalidate}
use hitbox.Fsm.Runs.{AfterStep, AfterRun, AfterRun-mono, run_inv}

abbrev KeyIfAny : {K : Type 0} → Option K → Option K → Type 0
KeyIfAny stored none = Unit
KeyIfAny stored (some k) = stored ≡ some k

module _ {t : Types} where
  -- An effect that names a key names `stored`; a call of the upstream names none.
  abbrev pub OnKey : Option t.Key → Effect t → Type 0
  OnKey stored (called r) = Unit
  OnKey stored (read k) = stored ≡ some k
  OnKey stored (written k v) = stored ≡ some k
  OnKey stored (admitted k) = stored ≡ some k
  OnKey stored (refused k) = stored ≡ some k
  OnKey stored (resolved k v) = stored ≡ some k
  OnKey stored (cleaned k) = stored ≡ some k
  OnKey stored (spawned k r) = stored ≡ some k

  -- The keys that a state carries; before the key is known nothing has been done.
  abbrev StateOnKey : Option t.Key → Log t → State t → Type 0
  StateOnKey stored log (State.initial s) = log ≡ []
  StateOnKey stored log (State.check_request_cache_policy f s) = log ≡ []
  StateOnKey stored log (State.poll_cache f s) = (stored ≡ some f.key) × (stored ≡ some s.cache_key)
  StateOnKey stored log (State.handle_stale f s) = stored ≡ some s.cache_key
  StateOnKey stored log (State.await_response k s) = stored ≡ some s.cache_key
  StateOnKey stored log (State.poll_upstream r s) = KeyIfAny stored s.cache_key
  StateOnKey stored log (State.check_response_cache_policy f s) = stored ≡ some s.cache_key
  StateOnKey stored log (State.update_cache f) = stored ≡ some f.key
  StateOnKey stored log _ = Unit

  abbrev pub LogOnKey : CacheFuture t → Type 0
  LogOnKey m = All (OnKey m.cache_key) m.log

  abbrev KeysAgree : CacheFuture t → Type 0
  KeysAgree m = LogOnKey m × StateOnKey m.cache_key m.log m.state

  step-KeysAgree :
      (e : Env t) (policy : PolicyConfig) (m : CacheFuture t)
      → KeysAgree m
      → AfterStep KeysAgree (step e policy m)
  unfolding step
  step-KeysAgree e policy m h = ground arith

  -- At every point of a run, each read, write and notification that was made, and each
  -- revalidation that was spawned, is for the key that the future stored when the request was found
  -- cacheable; so a request that was not has touched neither the cache nor the concurrency manager.
  pub new-LogOnKey :
      (e : Env t) (policy : PolicyConfig) (schedule : List Bool) (request : t.Req)
      → AfterRun LogOnKey (run e policy schedule (new request))
  unfolding new
  new-LogOnKey e policy schedule request =
      AfterRun-mono (λ m h. h.0) (run e policy schedule (new request))
        (run_inv KeysAgree e policy (step-KeysAgree e policy) schedule (new request) (ground arith))

  -- What a revalidation may do: call the upstream and write the key it is for.
  abbrev pub Refreshes : t.Key → Effect t → Type 0
  Refreshes key (called r) = Unit
  Refreshes key (written k v) = key ≡ k
  Refreshes key _ = ⊥

  abbrev RefreshState : t.Key → State t → Type 0
  RefreshState key (State.poll_upstream r s) = (s.permit ≡ none) × (s.cache_key ≡ some key)
  RefreshState key (State.check_response_cache_policy f s) = (s.permit ≡ none) × (s.cache_key ≡ key)
  RefreshState key (State.update_cache f) = f.key ≡ key
  RefreshState key (State.response s) = Unit
  RefreshState key State.taken = Unit
  RefreshState key _ = ⊥

  abbrev IsRefresh : t.Key → CacheFuture t → Type 0
  IsRefresh key m = All (Refreshes key) m.log × RefreshState key m.state

  step-IsRefresh :
      (e : Env t) (policy : PolicyConfig) (key : t.Key) (m : CacheFuture t)
      → IsRefresh key m
      → AfterStep (IsRefresh key) (step e policy m)
  unfolding step
  step-IsRefresh e policy key m h = ground arith

  -- A background revalidation only calls the upstream and writes the key that it was spawned for: it
  -- never reads the cache, asks the concurrency manager, or spawns another.
  pub revalidate-Refreshes :
      (e : Env t) (policy : PolicyConfig) (schedule : List Bool) (key : t.Key) (request : t.Req)
      → AfterRun
          (λ m. All (Refreshes key) m.log)
          (run e policy schedule (revalidate key request []))
  unfolding revalidate
  revalidate-Refreshes e policy schedule key request =
      AfterRun-mono (λ m h. h.0) (run e policy schedule (revalidate key request []))
        (run_inv (IsRefresh key) e policy (step-IsRefresh e policy key) schedule
          (revalidate key request []) (ground arith))
