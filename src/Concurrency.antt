-- ===== src/Concurrency.antt =====
-- hitbox/src/concurrency.rs: `BroadcastConcurrencyManager`, which lets a number of requests for a
-- key through and has the others wait for the value. The semaphore and the broadcast channel are
-- tokio's: a parameter that works on a state `T`. The in-flight map is a function; only whether two
-- keys are equal is asked of them.
pub mod Laws
pub mod Waiters
mod Tests
use hitbox.Prelude.{ℕ, Bool, Option, none, some, if◌then◌else◌}
use hitbox.Core.Value.{CacheValue}
use hitbox.Core.Response.{Result, ok, err}
use hitbox.Composition.Task.{Task}
use hitbox.Fsm.World.{ConcurrencyError, lagged, closed}

-- `broadcast::channel` with the capacity 1, `Semaphore` and their methods.
pub record Tokio (T V : Type 0) : Type 1 where
  pub Sender : Type 0
  pub Receiver : Type 0
  pub Semaphore : Type 0
  pub Permit : Type 0
  pub channel : Task T Sender
  pub semaphore : ℕ → Task T Semaphore
  pub try_acquire_owned : Semaphore → Task T (Option Permit)
  pub subscribe : Sender → Task T Receiver
  pub send : Sender → V → T → T

-- `broadcast::error::RecvError`
pub data RecvError : Type 0 where
  lagged_by : ℕ → RecvError
  is_closed : RecvError

-- What `check` gives: to proceed with a permit, to wait on a receiver, or the panic of its `expect`.
pub data Decision {T V : Type 0} (k : Tokio T V) : Type 0 where
  proceed : k.Permit → Decision k
  await : k.Receiver → Decision k
  panicked : Decision k

-- The map from keys to what is in flight, and the state of the channels and semaphores.
pub record Manager {T V : Type 0} (k : Tokio T V) (Key : Type 0) : Type 0 where
  pub in_flight : Key → Option (k.Sender × k.Semaphore)
  pub tokio : T

module _ {T V : Type 0} {k : Tokio T V} where
  -- The branch of an occupied entry.
  no_permit : k.Sender → Option k.Permit → T → Decision k × T
  no_permit sender (some permit) t = (proceed permit, t)
  no_permit sender none t = let (receiver, t') = k.subscribe sender t in (await receiver, t')

  occupied : k.Sender → k.Semaphore → T → Decision k × T
  unfolding no_permit
  occupied sender semaphore t =
      let (permit, t') = k.try_acquire_owned semaphore t in no_permit sender permit t'

module _ {T V : Type 0} {k : Tokio T V} {Key : Type 0} (same : Key → Key → Bool) where
  unfoldable pub insert : Key → Option (k.Sender × k.Semaphore) → Manager k Key → T → Manager k Key
  insert key entry s t = record {
    in_flight = λ key'. if same key' key then entry else s.in_flight key';
    tokio = t;
  }

  -- The branch of a vacant entry: the entry is inserted once its first permit is taken.
  first_permit :
      Key
      → k.Sender
      → k.Semaphore
      → Option k.Permit
      → Manager k Key
      → T
      → Decision k × Manager k Key
  unfolding insert
  first_permit key sender semaphore (some permit) s t =
      (proceed permit, insert key (some (sender, semaphore)) s t)
  first_permit key sender semaphore none s t = (panicked, record s { tokio = t })

  vacant : Key → ℕ → Manager k Key → Decision k × Manager k Key
  unfolding first_permit
  vacant key concurrency s =
      let (sender, t1) = k.channel s.tokio in
      let (semaphore, t2) = k.semaphore concurrency t1 in
      let (permit, t3) = k.try_acquire_owned semaphore t2 in
      first_permit key sender semaphore permit s t3

  check_entry :
      Option (k.Sender × k.Semaphore) → Key → ℕ → Manager k Key → Decision k × Manager k Key
  unfolding occupied vacant
  check_entry (some (sender, semaphore)) key concurrency s =
      let (decision, t) = occupied sender semaphore s.tokio in (decision, record s { tokio = t })
  check_entry none key concurrency s = vacant key concurrency s

  unfoldable pub check : Key → ℕ → Manager k Key → Decision k × Manager k Key
  unfolding check_entry
  check key concurrency s = check_entry (s.in_flight key) key concurrency s

  resolve_entry : Option (k.Sender × k.Semaphore) → Key → V → Manager k Key → Manager k Key
  unfolding insert
  resolve_entry (some (sender, semaphore)) key value s =
      insert key none s (k.send sender value s.tokio)
  resolve_entry none key value s = s

  unfoldable pub resolve : Key → V → Manager k Key → Manager k Key
  unfolding resolve_entry
  resolve key value s = resolve_entry (s.in_flight key) key value s

  unfoldable pub cleanup : Key → Manager k Key → Manager k Key
  unfolding insert
  cleanup key s = insert key none s s.tokio

-- The future that a waiting request polls, once its receiver has a result.
unfoldable pub await_future :
    {Cached Res : Type 0}
    → (Cached → Res)
    → Result RecvError (CacheValue Cached)
    → Result ConcurrencyError Res
await_future from_cached (ok value) = ok (from_cached value.data_)
await_future from_cached (err (lagged_by n)) = err (lagged n)
await_future from_cached (err is_closed) = err closed
