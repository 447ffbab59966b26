-- ===== src/Concurrency/Tests.antt =====
-- The manager over toy channels and semaphores: a semaphore is a number, and the state has the next
-- one and how many permits each has left.
use hitbox.Prelude.{◌+◌, ℕ, zero, suc, Option, none, some, ◌≡◌, refl, arith, ◌==◌, if◌then◌else◌}
use hitbox.Concurrency.{Tokio, Manager, check, resolve}
use hitbox.Core.Value.{CacheValue}
use hitbox.Core.Response.{Result, ok, err}
use hitbox.Concurrency.{RecvError, is_closed, await_future}
use hitbox.Concurrency.Waiters.{Broadcasts, after_checks, await_future-resolve}
use hitbox.Concurrency.Laws.{Counts, Acquired, proceeds, all_panics, proceeds_limit}

record Permits : Type 0 where
  next : ℕ
  left : ℕ → ℕ

abbrev grant : ℕ → ℕ → Permits → Permits
grant m n t = record t { left = λ i. if i == m then n else t.left i }

abbrev acquire : ℕ → Permits → ℕ → Option (Unit {0}) × Permits
acquire m t zero = (none, t)
acquire m t (suc n) = (some tt, grant m n t)

abbrev toy : Tokio Permits ℕ
toy = record {
  Sender = Unit {0};
  Receiver = Unit {0};
  Semaphore = ℕ;
  Permit = Unit {0};
  channel = λ t. (tt, t);
  semaphore = λ n t. (t.next, record (grant t.next n t) { next = suc t.next });
  try_acquire_owned = λ m t. acquire m t (t.left m);
  subscribe = λ s t. (tt, t);
  send = λ s v t. t;
}

abbrev free : ℕ → Permits → ℕ
free m t = t.left m

acquire-Acquired :
    (m : ℕ) (t : Permits) (n : ℕ) → t.left m ≡ n → Acquired toy free m n (acquire m t n)
acquire-Acquired m t zero h = h
acquire-Acquired m t (suc n) h = ground arith

counts : Counts toy free
counts = record {
  created = λ n t. ground arith;
  acquired = λ m t. acquire-Acquired m t (t.left m) refl;
  subscribed = λ m s t. refl;
}

abbrev idle : Manager toy ℕ
idle = record { in_flight = λ key. none; tokio = record { next = 0; left = λ m. 0 } }

proceeds_limit_example :
    (proceeds (◌==◌) free counts 4 2 5 idle ≡ 2) × (all_panics (◌==◌) free counts 4 2 5 idle ≡ 0)
proceeds_limit_example = proceeds_limit (◌==◌) free counts 4 2 refl 5 idle (omega arith) refl

-- Key 4 is in flight, and both permits are taken.
abbrev busy : Manager toy ℕ
busy = record {
  in_flight = λ key. if key == 4 then some (tt, 0) else none;
  tokio = record { next = 1; left = λ m. 0 };
}

-- Channels that keep the last value sent, and semaphores whose permits are all taken.
abbrev full : Tokio (Option (CacheValue ℕ)) (CacheValue ℕ)
full = record {
  Sender = Unit {0};
  Receiver = Unit {0};
  Semaphore = Unit {0};
  Permit = Unit {0};
  channel = λ t. (tt, t);
  semaphore = λ n t. (tt, t);
  try_acquire_owned = λ m t. (none, t);
  subscribe = λ s t. (tt, t);
  send = λ s v t. some v;
}

abbrev recv : Unit {0} → Option (CacheValue ℕ) → Result RecvError (CacheValue ℕ)
recv r none = err is_closed
recv r (some v) = ok v

broadcasts : Broadcasts full recv
broadcasts = record {
  Subscribed = λ r s t. Unit;
  subscribe_new = λ s t. tt;
  subscribe_kept = λ r s s' t h. tt;
  acquire_kept = λ r s m t h. tt;
  sent = λ r s v t h. refl;
}

abbrev fetching : Manager full ℕ
fetching = record { in_flight = λ key. if key == 4 then some (tt, tt) else none; tokio = none }

abbrev fetched : CacheValue ℕ
fetched = record { data_ = 7; expire = none; stale_at = none }

await_future-resolve_example :
    await_future
      (λ n. n + 1)
      (recv tt
        (resolve (◌==◌) 4 fetched (
          after_checks recv broadcasts
            (λ n. n + 1)
            (◌==◌)
            4
            1
            2
            (check (◌==◌) 4 1 fetching).1)).tokio)
    ≡ ok 8
unfolding check
await_future-resolve_example =
    await_future-resolve recv broadcasts (λ n. n + 1) (◌==◌) 4 1 fetching tt tt tt 2 fetched refl
      refl
