-- ===== src/Fsm/Progress.antt =====
-- The poll loop of hitbox/src/fsm/future.rs ends: each round brings the state nearer to `Response`,
-- and no round panics.
use hitbox.Prelude.{
  ℕ, suc, ◌≤◌, ◌<◌, Bool, true, false, not, ◌≡◌, inl, inr, List, [], ◌∷◌, arith, Bool-cases,
}
use hitbox.Core.Policy.{PolicyConfig}
use hitbox.Fsm.World.{Types, Log, Env}
use hitbox.Fsm.States.{State, taken}
use hitbox.Fsm.Future.{
  CacheFuture, Step, next, ready, panic, Poll, pending, done, panicked, step, awaits, continue, run,
  new, revalidate,
}

-- The rounds of a schedule in which the future is ready.
abbrev pub rounds : List Bool → ℕ
rounds [] = 0
rounds (true ∷ rest) = suc (rounds rest)
rounds (false ∷ rest) = rounds rest

module _ {t : Types} where
  -- How many rounds are left at most.
  abbrev pub rank : State t → ℕ
  rank (State.initial s) = 8
  rank (State.check_request_cache_policy f s) = 7
  rank (State.poll_cache f s) = 6
  rank (State.handle_stale f s) = 5
  rank (State.await_response k s) = 5
  rank (State.poll_upstream r s) = 4
  rank (State.check_response_cache_policy f s) = 3
  rank (State.update_cache f) = 2
  rank (State.convert_response f s) = 2
  rank (State.response s) = 1
  rank taken = 0

  abbrev needs_predicates : State t → Bool
  needs_predicates (State.check_response_cache_policy f s) = false
  needs_predicates (State.update_cache f) = false
  needs_predicates (State.convert_response f s) = false
  needs_predicates (State.response s) = false
  needs_predicates taken = false
  needs_predicates _ = true

  -- What holds of a future that has not given its response: the predicates are there while they
  -- are still needed.
  pub record IsLive (m : CacheFuture t) : Type 0 where
    pub unfinished : 0 < rank m.state
    pub has_predicates : needs_predicates m.state ≡ true → m.response_predicates ≡ true

  abbrev Advances : CacheFuture t → Step t → Type 0
  Advances m (next m') = IsLive m' × (rank m'.state < rank m.state)
  Advances m (ready response ctx m') = m'.state ≡ taken
  Advances m (panic m') = ⊥

  step-Advances :
      (e : Env t) (policy : PolicyConfig) (m : CacheFuture t)
      → IsLive m
      → Advances m (step e policy m)
  unfolding step
  step-Advances e policy m h = ground arith

  abbrev pub Completes : Poll t → Type 0
  Completes (pending m) = ⊥
  Completes (done response ctx m) = m.state ≡ taken
  Completes (panicked m) = ⊥

  continue-Completes :
      (f : CacheFuture t → Poll t) (m : CacheFuture t) (s : Step t)
      → Advances m s
      → ((m' : CacheFuture t) → IsLive m' → rank m'.state < rank m.state → Completes (f m'))
      → Completes (continue f s)
  continue-Completes f m (next m') a k = k m' a.0 a.1
  continue-Completes f m (ready response ctx m') a k = a
  continue-Completes f m (panic m') a k = a

  completes :
      (e : Env t) (policy : PolicyConfig) (schedule : List Bool) (m : CacheFuture t)
      → IsLive m
      → rank m.state ≤ rounds schedule
      → Completes (run e policy schedule m)
  unfolding run
  completes e policy [] m live enough = absurd (omega (arith, live.unfinished))
  completes e policy (true ∷ rest) m live enough =
      continue-Completes (run e policy rest) m (step e policy m) (step-Advances e policy m live)
        λ m' live' less. completes e policy rest m' live' (omega arith)
  completes e policy (false ∷ rest) m live enough = elim (Bool-cases (not (awaits m.state))) [
    | inl go ↦ rw go (
        continue-Completes (run e policy rest) m (step e policy m) (step-Advances e policy m live)
          λ m' live' less. completes e policy rest m' live' (omega arith))
    | inr wait ↦ rw wait (completes e policy rest m live enough)
  ]

  -- A request gets its response, and no round panics, whatever the policy is and whatever the
  -- services answer, on a schedule with eight rounds or more in which the awaited future is ready.
  pub new-Completes :
      (e : Env t) (policy : PolicyConfig) (schedule : List Bool) (request : t.Req)
      → 8 ≤ rounds schedule
      → Completes (run e policy schedule (new request))
  unfolding new
  new-Completes e policy schedule request enough =
      completes e policy schedule (new request) (ground arith) enough

  -- A background revalidation completes without a panic on a schedule with four rounds or more in
  -- which the awaited future is ready.
  pub revalidate-Completes :
      (e : Env t) (policy : PolicyConfig) (schedule : List Bool) (key : t.Key) (request : t.Req)
      (log : Log t)
      → 4 ≤ rounds schedule
      → Completes (run e policy schedule (revalidate key request log))
  unfolding revalidate
  revalidate-Completes e policy schedule key request log enough =
      completes e policy schedule (revalidate key request log) (ground arith) enough
