-- ===== src/Fsm/Tests.antt =====
-- Runs of the state machine over a toy service: the cached form of a response is the response, the
-- upstream adds one to the request, and a response below 100 is cacheable.
use hitbox.Prelude.{
  ℕ, ◌+◌, ◌*◌, ◌≤◌, false, Option, none, some, [], ◌∷◌, ◌≡◌, refl, arith, ltb, ◌==◌, if◌then◌else◌,
}
use hitbox.Core.Context.{
  BoxContext, backend, read_mode, default_context, hit, upstream, set_status, set_source,
  finalize_context, status,
}
use hitbox.Core.Value.{CacheValue, cache_state}
use hitbox.Core.Policy.{
  cacheable, non_cacheable, EnabledCacheConfig, StalePolicy, return, revalidate, enabled, disabled,
}
use hitbox.Core.Response.{Result, ok, err}
use hitbox.Fsm.World.{
  Types, Env, ConcurrencyDecision, proceed, await, closed, called, read, written, admitted,
  resolved,
}
use hitbox.Fsm.Future.{CacheFuture, Poll, done, run, step, new}
use hitbox.Fsm.Future
use hitbox.Fsm.Progress.{Completes, new-Completes}
use hitbox.Fsm.Counts.{calls, permits, settlements, new-calls_once, new-permits_settled}
use hitbox.Fsm.Keys.{LogOnKey, Refreshes, new-LogOnKey, revalidate-Refreshes}
use hitbox.Fsm.Runs.{AfterRun}
use hitbox.Fsm.Source.{miss-upstream}
use hitbox.Fsm.Answers.{start, all_ready, serve, fetched, serve-stale_revalidate}
use hitbox.Composition.Error.{BackendError}
use hitbox.Composition.Envelope.{Raw}
use hitbox.Composition.Backend.Packed.{passthrough}
use hitbox.Backend.{Backend, Format, Decoded, deleted, with_data, get}
use hitbox.Fsm.Sequence.{after_get, marked_hit, stored, resume, filled, serve-resume}
use hitbox.Prelude.{All}

abbrev toy : Types
toy = record { Req = ℕ; Res = ℕ; Cached = ℕ; Key = ℕ; Permit = ℕ; BackendError = ℕ }

abbrev Found : Type 0
Found = Result ℕ (Option (CacheValue ℕ))

abbrev entry : ℕ → Option ℕ → Option ℕ → CacheValue ℕ
entry x expire stale_at = record { data_ = x; expire = expire; stale_at = stale_at }

-- The cache answers `found` in the context `ctx`, the concurrency manager decides `decision`, and
-- it is instant 50.
abbrev env : Found → BoxContext → ConcurrencyDecision ℕ → Env toy
env found ctx decision = record {
  check_request = λ log r. cacheable (record { key = r; request = r });
  check_response =
      λ log r config. if ltb r 100 then cacheable (entry r none none) else non_cacheable r;
  from_cached = λ c. c;
  call = λ log r. r + 1;
  now = λ log. 50;
  get = λ log k c. (found, ctx);
  set = λ log k v c. (ok tt, c);
  check = λ log k n. decision;
  await_response = λ log k. err closed;
}

abbrev config : StalePolicy → Option ℕ → EnabledCacheConfig
config policy limit = record { ttl = some 10; stale = some 5; policy = policy; concurrency = limit }

abbrev missing : Env toy
missing = env (ok none) start (proceed 0)

new-Completes_example : Completes (run missing (enabled (config return (some 1))) all_ready (new 7))
new-Completes_example =
    new-Completes missing (enabled (config return (some 1))) all_ready 7 (omega arith)

new-calls_once_example : AfterRun (λ m. calls m.log ≤ 1) (run missing disabled all_ready (new 7))
new-calls_once_example = new-calls_once missing disabled all_ready 7

abbrev settled : CacheFuture toy
settled = record {
  cache_key = some 7;
  state = hitbox.Fsm.States.taken;
  response_predicates = false;
  log =
      written 7 (entry 8 none none)
      ∷ resolved 7 (entry 8 none none)
      ∷ called 7
      ∷ admitted 7
      ∷ read 7
      ∷ [];
}

miss_runs :
    run missing (enabled (config return (some 1))) all_ready (new 7)
    ≡ done 8 default_context settled
unfolding run step new
miss_runs = refl

new-permits_settled_example : permits settled.log ≤ settlements settled.log
new-permits_settled_example =
    new-permits_settled missing (enabled (config return (some 1))) all_ready 7 miss_runs

miss-upstream_example : default_context.source ≡ upstream
miss-upstream_example =
    miss-upstream missing (enabled (config return (some 1))) all_ready (new 7) miss_runs refl

new-LogOnKey_example :
    AfterRun LogOnKey (run missing (enabled (config return (some 1))) all_ready (new 7))
new-LogOnKey_example = new-LogOnKey missing (enabled (config return (some 1))) all_ready 7

revalidate-Refreshes_example :
    AfterRun
      (λ m. All (Refreshes 3) m.log)
      (run missing disabled all_ready (Future.revalidate 3 7 []))
revalidate-Refreshes_example = revalidate-Refreshes missing disabled all_ready 3 7

abbrev old : CacheValue ℕ
old = entry 9 (some 60) (some 40)

serve-stale_revalidate_example :
    serve (env (ok (some old)) start await) (enabled (config revalidate none)) 7
    ≡ some (8, default_context, written 7 (entry 8 none none) ∷ fetched {t = toy} 7 7)
unfolding cache_state set_status set_source finalize_context status
serve-stale_revalidate_example =
    serve-stale_revalidate (env (ok (some old)) start await) (config revalidate none) 7 7 7 refl old
      (entry 8 none none) start start (ok tt) refl refl refl refl refl refl

-- A backend that holds the one value of a key, with its bytes for the value.
abbrev encode : Option (CacheValue ℕ) → Option (CacheValue Raw)
encode none = none
encode (some v) = some (with_data v (v.data_ ∷ []))

abbrev decode : Raw → BoxContext → Decoded ℕ
decode [] ctx = (err "empty", none, ctx)
decode (n ∷ rest) ctx = (ok tt, some n, ctx)

abbrev one_byte : Format ℕ
one_byte = record {
  with_serializer = λ n ctx. ok (n ∷ []);
  with_deserializer = decode;
  format_type_id = 0;
}

abbrev moka : Backend (Option (CacheValue Raw)) ℕ ℕ
moka = record {
  read = λ key w. (ok w, w);
  write = λ key v w. (ok tt, some v);
  remove = λ key w. (ok (deleted 1), none);
  label = record { name = "moka" };
  value_format = one_byte;
  compressor = passthrough;
}

-- What `CacheBackend::get` of that backend gives and leaves.
got :
    (found : Option (CacheValue ℕ))
    → (get moka 0 start (encode found)).0 ≡ (ok found, after_get moka.label found)
unfolding get read_mode marked_hit
got none = refl
got (some v) = refl

-- The toy, with the errors of backends.
abbrev over_backend : Types
over_backend = record {
  Req = ℕ;
  Res = ℕ;
  Cached = ℕ;
  Key = ℕ;
  Permit = ℕ;
  BackendError = BackendError;
}

-- That backend, and an upstream whose answers change with every call. Every request has the key 0.
abbrev keeping : Env over_backend
keeping = record {
  check_request = λ log r. cacheable (record { key = 0; request = r });
  check_response = λ log r config. cacheable (entry r (some 60) (some 55));
  from_cached = λ c. c;
  call = λ log r. r + calls {t = over_backend} log * 100;
  now = λ log. 50;
  get = λ log k c. (get moka 0 c (encode (stored {t = over_backend} ◌==◌ k log))).0;
  set = λ log k v c. (ok tt, c);
  check = λ log k n. proceed 0;
  await_response = λ log k. err closed;
}

abbrev first_response : CacheValue ℕ
first_response = entry 107 (some 60) (some 55)

serve-resume_example :
    (serve keeping (enabled (config return none)) 7
      ≡ some (107, default_context, filled {t = over_backend} 0 7 first_response))
    × (serve
          (resume (called 5 ∷ read 3 ∷ filled {t = over_backend} 0 7 first_response) keeping)
          (enabled (config revalidate (some 1)))
          9
        ≡ some (
          107,
          record default_context { status = hit; source = backend moka.label },
          read 0 ∷ [],
        ))
unfolding stored resume cache_state set_status set_source finalize_context status
serve-resume_example =
    serve-resume keeping ◌==◌ (config return none) (config revalidate (some 1)) 0 moka.label 7 7 9 9
      first_response start (called 5 ∷ read 3 ∷ []) refl
      (λ log. got (stored {t = over_backend} ◌==◌ 0 log)) refl refl refl refl refl refl refl refl
