-- ===== src/Fsm/Runs.antt =====
-- Rules for the runs of a cache future (hitbox/src/fsm/future.rs): an invariant of every step is
-- an invariant of every run.
use hitbox.Prelude.{Bool, not, ◌≡◌, arith, ◌||◌, inl, inr, List, [], ◌∷◌, Bool-cases}
use hitbox.Core.Context.{CacheContext}
use hitbox.Core.Policy.{PolicyConfig}
use hitbox.Fsm.World.{Types, Env}
use hitbox.Fsm.States.{taken}
use hitbox.Fsm.Future.{
  CacheFuture, Step, next, ready, panic, Poll, pending, done, panicked, step, awaits, continue, run,
}

module _ {t : Types} (P : CacheFuture t → Type 0) where
  -- `P` holds of the future that a step leaves.
  abbrev pub AfterStep : Step t → Type 0
  AfterStep (next m) = P m
  AfterStep (ready response ctx m) = P m
  AfterStep (panic m) = P m

  abbrev pub AfterRun : Poll t → Type 0
  AfterRun (pending m) = P m
  AfterRun (done response ctx m) = P m
  AfterRun (panicked m) = P m

module _ {t : Types} {P Q : CacheFuture t → Type 0} where
  pub AfterRun-mono : ((m : CacheFuture t) → P m → Q m) → (r : Poll t) → AfterRun P r → AfterRun Q r
  AfterRun-mono f (pending m) h = f m h
  AfterRun-mono f (done response ctx m) h = f m h
  AfterRun-mono f (panicked m) h = f m h

module _ {t : Types} (P : CacheFuture t → Type 0) (e : Env t) (policy : PolicyConfig)
    (keep : (m : CacheFuture t) → P m → AfterStep P (step e policy m)) where
  pub run_inv :
      (schedule : List Bool) (m : CacheFuture t) → P m → AfterRun P (run e policy schedule m)
  unfolding run
  run_inv [] m h = h
  run_inv (is_ready ∷ rest) m h = elim (Bool-cases (is_ready || not (awaits m.state))) [
    | inl go ↦ rw go (after (run e policy rest) (step e policy m) (keep m h) (run_inv rest))
    | inr wait ↦ rw wait (run_inv rest m h)
  ]
    where
      after :
          (f : CacheFuture t → Poll t) (s : Step t)
          → AfterStep P s
          → ((m' : CacheFuture t) → P m' → AfterRun P (f m'))
          → AfterRun P (continue f s)
      after f (next m') k ih = ih m' k
      after f (ready response ctx m') k ih = k
      after f (panic m') k ih = k

module _ {t : Types} (R : CacheContext → CacheFuture t → Type 0) where
  -- `R` holds of the context and the future that go with a response, if there is one.
  abbrev pub OnReady : Step t → Type 0
  OnReady (ready response ctx m) = R ctx m
  OnReady _ = Unit

  abbrev OnDone : Poll t → Type 0
  OnDone (done response ctx m) = R ctx m
  OnDone _ = Unit

module _ {t : Types} (R : CacheContext → CacheFuture t → Type 0) (e : Env t) (policy : PolicyConfig)
    (each : (m : CacheFuture t) → OnReady R (step e policy m)) where
  continue-OnDone :
      (f : CacheFuture t → Poll t) (s : Step t)
      → OnReady R s
      → ((m : CacheFuture t) → OnDone R (f m))
      → OnDone R (continue f s)
  continue-OnDone f (next m) r k = k m
  continue-OnDone f (ready response ctx m) r k = r
  continue-OnDone f (panic m) r k = tt

  run-OnDone : (schedule : List Bool) (m : CacheFuture t) → OnDone R (run e policy schedule m)
  unfolding run
  run-OnDone [] m = tt
  run-OnDone (is_ready ∷ rest) m = elim (Bool-cases (is_ready || not (awaits m.state))) [
    | inl go ↦
        rw go (continue-OnDone (run e policy rest) (step e policy m) (each m) (run-OnDone rest))
    | inr wait ↦ rw wait (run-OnDone rest m)
  ]

  pub run_done :
      (schedule : List Bool) (m : CacheFuture t) {response : t.Res} {ctx : CacheContext}
      {m' : CacheFuture t}
      → run e policy schedule m ≡ done response ctx m'
      → R ctx m'
  run_done schedule m {ctx} {m'} h =
      let holds : OnDone R (run e policy schedule m) = run-OnDone schedule m in rw h at holds

-- The state of a future that gave its response is taken.
module _ {t : Types} (e : Env t) (policy : PolicyConfig) where
  abbrev IsTaken : CacheContext → CacheFuture t → Type 0
  IsTaken ctx m = m.state ≡ taken

  step-IsTaken : (m : CacheFuture t) → OnReady IsTaken (step e policy m)
  unfolding step
  step-IsTaken m = ground arith

  pub done-taken :
      (schedule : List Bool) (m : CacheFuture t) {response : t.Res} {ctx : CacheContext}
      {m' : CacheFuture t}
      → run e policy schedule m ≡ done response ctx m'
      → m'.state ≡ taken
  done-taken schedule m h = run_done IsTaken e policy step-IsTaken schedule m h
