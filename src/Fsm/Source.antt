-- ===== src/Fsm/Source.antt =====
-- The context that a response comes with, in hitbox/src/fsm/future.rs.
use hitbox.Prelude.{Bool, List, ◌≡◌, arith}
use hitbox.Core.Context.{BoxContext, CacheContext, miss, upstream, set_source, status}
use hitbox.Core.Context.Laws.{source-finalize_context, source-set_source, status-finalize_context}
use hitbox.Core.Policy.{PolicyConfig}
use hitbox.Fsm.World.{Types, Env}
use hitbox.Fsm.States.{State}
use hitbox.Fsm.Future.{CacheFuture, done, finish, dispatch, step, run}
use hitbox.Fsm.Runs.{OnReady, run_done}

finish_source :
    (ctx : BoxContext)
    → (finish (status ctx) ctx).status ≡ miss
    → (finish (status ctx) ctx).source ≡ upstream
unfolding finish
finish_source ctx h = ground (
  arith,
  status-finalize_context ctx,
  source-finalize_context (set_source ctx upstream),
  source-set_source ctx upstream,
)

module _ {t : Types} (e : Env t) (policy : PolicyConfig) where
  abbrev NamesUpstream : CacheContext → CacheFuture t → Type 0
  NamesUpstream ctx m = ctx.status ≡ miss → ctx.source ≡ upstream

  dispatch-NamesUpstream :
      (s : State t) (m : CacheFuture t) → OnReady NamesUpstream (dispatch e policy s m)
  unfolding dispatch
  dispatch-NamesUpstream (State.response s) m = finish_source s.ctx
  dispatch-NamesUpstream (State.poll_upstream r s) m = ground arith
  dispatch-NamesUpstream _ m = tt

  step-NamesUpstream : (m : CacheFuture t) → OnReady NamesUpstream (step e policy m)
  unfolding step
  step-NamesUpstream m = dispatch-NamesUpstream m.state m

  -- A response whose status is Miss names the upstream as its source, from every state of the
  -- machine and under every schedule.
  pub miss-upstream :
      (schedule : List Bool) (m : CacheFuture t) {response : t.Res} {ctx : CacheContext}
      {m' : CacheFuture t}
      → run e policy schedule m ≡ done response ctx m'
      → ctx.status ≡ miss
      → ctx.source ≡ upstream
  miss-upstream schedule m h missed =
      run_done NamesUpstream e policy step-NamesUpstream schedule m h missed
