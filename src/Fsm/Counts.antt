-- ===== src/Fsm/Counts.antt =====
-- What one request costs: the calls of the upstream service, and the permits of the concurrency
-- manager, counted in the log of hitbox/src/fsm.
use hitbox.Prelude.{ℕ, suc, ◌+◌, ◌≤◌, Bool, Option, none, some, List, [], ◌∷◌, ◌≡◌, arith}
use hitbox.Core.Context.{CacheContext}
use hitbox.Core.Policy.{PolicyConfig}
use hitbox.Fsm.World.{Types, Env, Effect, called, admitted, resolved, cleaned}
use hitbox.Fsm.States.{State}
use hitbox.Fsm.Future.{CacheFuture, done, step, run, new}
use hitbox.Fsm.Runs.{AfterStep, AfterRun, AfterRun-mono, run_inv, done-taken}

abbrev one_if_both : {A B : Type 0} → Option A → Option B → ℕ
one_if_both (some p) (some k) = 1
one_if_both _ _ = 0

abbrev one_if : {A : Type 0} → Option A → ℕ
one_if (some p) = 1
one_if none = 0

module _ {t : Types} where
  abbrev pub calls : List (Effect t) → ℕ
  calls [] = 0
  calls (called r ∷ log) = suc (calls log)
  calls (x ∷ log) = calls log

  abbrev pub permits : List (Effect t) → ℕ
  permits [] = 0
  permits (admitted k ∷ log) = suc (permits log)
  permits (x ∷ log) = permits log

  -- The effects that tell the concurrency manager that a key is done with.
  abbrev pub settlements : List (Effect t) → ℕ
  settlements [] = 0
  settlements (resolved k v ∷ log) = suc (settlements log)
  settlements (cleaned k ∷ log) = suc (settlements log)
  settlements (x ∷ log) = settlements log

  -- The calls of the upstream that a state may still make.
  abbrev calls_left : State t → ℕ
  calls_left (State.initial s) = 1
  calls_left (State.check_request_cache_policy f s) = 1
  calls_left (State.poll_cache f s) = 1
  calls_left (State.handle_stale f s) = 1
  calls_left (State.await_response k s) = 1
  calls_left _ = 0

  abbrev CallsOnce : CacheFuture t → Type 0
  CallsOnce m = calls m.log + calls_left m.state ≤ 1

  step-CallsOnce :
      (e : Env t) (policy : PolicyConfig) (m : CacheFuture t)
      → CallsOnce m
      → AfterStep CallsOnce (step e policy m)
  unfolding step
  step-CallsOnce e policy m h = ground arith

  -- The permits that a state holds with the key to settle them by.
  abbrev held : State t → ℕ
  held (State.poll_upstream r s) = one_if_both s.permit s.cache_key
  held (State.check_response_cache_policy f s) = one_if s.permit
  held _ = 0

  abbrev Settles : CacheFuture t → Type 0
  Settles m = permits m.log ≤ settlements m.log + held m.state

  step-Settles :
      (e : Env t) (policy : PolicyConfig) (m : CacheFuture t)
      → Settles m
      → AfterStep Settles (step e policy m)
  unfolding step
  step-Settles e policy m h = ground arith

  -- One request calls the upstream service at most once, at every point of every run, whatever the
  -- policy is and whatever the services answer.
  pub new-calls_once :
      (e : Env t) (policy : PolicyConfig) (schedule : List Bool) (request : t.Req)
      → AfterRun (λ m. calls m.log ≤ 1) (run e policy schedule (new request))
  unfolding new
  new-calls_once e policy schedule request =
      AfterRun-mono (λ m h. omega (arith, h)) (run e policy schedule (new request))
        (run_inv CallsOnce e policy (step-CallsOnce e policy) schedule (new request) (ground arith))

  -- A request that has its response has settled the permit that it was given: in its log there are at
  -- least as many calls of `resolve` and `cleanup` as permits.
  pub new-permits_settled :
      (e : Env t) (policy : PolicyConfig) (schedule : List Bool) (request : t.Req)
      {response : t.Res} {ctx : CacheContext} {m : CacheFuture t}
      → run e policy schedule (new request) ≡ done response ctx m
      → permits m.log ≤ settlements m.log
  unfolding new
  new-permits_settled e policy schedule request {m} h =
      let kept : AfterRun Settles (run e policy schedule (new request)) =
        run_inv Settles e policy (step-Settles e policy) schedule (new request) (ground arith) in
      let kept' : Settles m = rw h at kept in
      ground (arith, done-taken e policy schedule (new request) h)
