-- ===== src/Concurrency/Waiters.antt =====
-- A request that waits on the manager of hitbox/src/concurrency.rs gets the value of the one that it
-- waits for.
use hitbox.Prelude.{ℕ, zero, suc, Bool, Option, none, some, ◌≡◌, refl, arith}
use hitbox.Core.Value.{CacheValue}
use hitbox.Core.Response.{Result, ok}
use hitbox.Concurrency.{
  Tokio, Manager, await, RecvError, no_permit, check, resolve, await_future, insert,
}

-- The documented behaviour of tokio's broadcast channel: `recv` gives a receiver that was subscribed
-- to a sender what that sender sent, and neither a later subscription nor a semaphore ends that.
pub record Broadcasts {T V : Type 0} (k : Tokio T V) (recv : k.Receiver → T → Result RecvError V)
    : Type 1 where
  pub Subscribed : k.Receiver → k.Sender → T → Type 0
  pub subscribe_new : (s : k.Sender) (t : T) → Subscribed (k.subscribe s t).0 s (k.subscribe s t).1
  pub subscribe_kept :
      (r : k.Receiver) (s s' : k.Sender) (t : T)
      → Subscribed r s t
      → Subscribed r s (k.subscribe s' t).1
  pub acquire_kept :
      (r : k.Receiver) (s : k.Sender) (m : k.Semaphore) (t : T)
      → Subscribed r s t
      → Subscribed r s (k.try_acquire_owned m t).1
  pub sent :
      (r : k.Receiver) (s : k.Sender) (v : V) (t : T)
      → Subscribed r s t
      → recv r (k.send s v t) ≡ ok v

module _ {T Cached Res Key : Type 0} {k : Tokio T (CacheValue Cached)}
    (recv : k.Receiver → T → Result RecvError (CacheValue Cached)) (broadcasts : Broadcasts k recv)
    (from_cached : Cached → Res) (same : Key → Key → Bool) (key : Key) (limit : ℕ) where
  -- The manager after `n` more requests for the key.
  abbrev pub after_checks : ℕ → Manager k Key → Manager k Key
  after_checks zero s = s
  after_checks (suc n) s = after_checks n (check same key limit s).1

  -- What is in flight for the key has this receiver as a subscriber.
  record Waits (r : k.Receiver) (s : Manager k Key) : Type 0 where
    sender : k.Sender
    semaphore : k.Semaphore
    held : s.in_flight key ≡ some (sender, semaphore)
    listens : broadcasts.Subscribed r sender s.tokio

  no_permit-Subscribed :
      (r : k.Receiver) (sender : k.Sender) (p : Option k.Permit) (t : T)
      → broadcasts.Subscribed r sender t
      → broadcasts.Subscribed r sender (no_permit {k = k} sender p t).1
  unfolding no_permit
  no_permit-Subscribed r sender (some p) t h = h
  no_permit-Subscribed r sender none t h = broadcasts.subscribe_kept r sender sender t h

  check-Waits :
      (r : k.Receiver) (s : Manager k Key) → Waits r s → Waits r (check same key limit s).1
  unfolding check
  check-Waits r s w = rw w.held record {
    sender = w.sender;
    semaphore = w.semaphore;
    held = w.held;
    listens =
        no_permit-Subscribed r w.sender (k.try_acquire_owned w.semaphore s.tokio).0
          (k.try_acquire_owned w.semaphore s.tokio).1
          (broadcasts.acquire_kept r w.sender w.semaphore s.tokio w.listens);
  }

  after_checks-Waits :
      (n : ℕ) (r : k.Receiver) (s : Manager k Key) → Waits r s → Waits r (after_checks n s)
  after_checks-Waits zero r s w = w
  after_checks-Waits (suc n) r s w =
      after_checks-Waits n r (check same key limit s).1 (check-Waits r s w)

  resolve-recv :
      (r : k.Receiver) (s : Manager k Key) (value : CacheValue Cached)
      → Waits r s
      → recv r (resolve same key value s).tokio ≡ ok value
  unfolding resolve insert
  resolve-recv r s value w = rw w.held (broadcasts.sent r w.sender value s.tokio w.listens)

  no_permit-subscribes :
      (r : k.Receiver) (sender : k.Sender) (p : Option k.Permit) (t : T)
      → (no_permit {k = k} sender p t).0 ≡ await r
      → broadcasts.Subscribed r sender (no_permit {k = k} sender p t).1
  unfolding no_permit
  no_permit-subscribes r sender (some p) t h = absurd (ground (arith, h))
  no_permit-subscribes r sender none t h =
      let same_receiver : (k.subscribe sender t).0 ≡ r = ground (arith, h) in
      rw same_receiver at (broadcasts.subscribe_new sender t)

  -- A check that has a request wait subscribes it to what is in flight for the key.
  check-subscribes :
      (s : Manager k Key) (sender : k.Sender) (m : k.Semaphore) (r : k.Receiver)
      → s.in_flight key ≡ some (sender, m)
      → (check same key limit s).0 ≡ await r
      → Waits r (check same key limit s).1
  unfolding check
  check-subscribes s sender m r held waits =
      let acquired = k.try_acquire_owned m s.tokio in
      let answer : (no_permit {k = k} sender acquired.0 acquired.1).0 ≡ await r =
        rw held at waits in
      rw held record {
        sender = sender;
        semaphore = m;
        held = held;
        listens = no_permit-subscribes r sender acquired.0 acquired.1 answer;
      }

  -- A request that is told to wait while its key is in flight gets the response made of the value
  -- with which the key is resolved, however many requests for the key come in between. The channel
  -- delivers what is sent to those that are subscribed.
  pub await_future-resolve :
      (s : Manager k Key) (sender : k.Sender) (m : k.Semaphore) (r : k.Receiver) (n : ℕ)
      (value : CacheValue Cached)
      → s.in_flight key ≡ some (sender, m)
      → (check same key limit s).0 ≡ await r
      → await_future from_cached
          (recv r (resolve same key value (after_checks n (check same key limit s).1)).tokio)
        ≡ ok (from_cached value.data_)
  unfolding await_future
  await_future-resolve s sender m r n value held waits =
      let after = check-subscribes s sender m r held waits in
      rw
        (resolve-recv r (after_checks n (check same key limit s).1) value
          (after_checks-Waits n r (check same key limit s).1 after))
        refl
