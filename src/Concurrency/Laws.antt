-- ===== src/Concurrency/Laws.antt =====
-- What the manager of hitbox/src/concurrency.rs promises, over semaphores that count.
use hitbox.Prelude.{
  ℕ, zero, suc, ◌+◌, ◌<◌, Bool, true, false, Option, none, some, ◌≡◌, refl, arith, leb,
  if◌then◌else◌,
}
use hitbox.Concurrency.{
  Tokio, Manager, Decision, proceed, await, panicked, insert, check, resolve, cleanup,
}

module _ {T V : Type 0} (k : Tokio T V) (free : k.Semaphore → T → ℕ) (m : k.Semaphore) where
  -- What `try_acquire_owned` leaves of the `n` permits that were free.
  abbrev pub Acquired : ℕ → Option k.Permit × T → Type 0
  Acquired zero (none, t) = free m t ≡ 0
  Acquired zero (some p, t) = ⊥
  Acquired (suc n) (none, t) = ⊥
  Acquired (suc n) (some p, t) = free m t ≡ n

-- The documented behaviour of tokio's semaphore: `free m t` is its number of available permits.
pub record Counts {T V : Type 0} (k : Tokio T V) (free : k.Semaphore → T → ℕ) : Type 0 where
  pub created : (n : ℕ) (t : T) → free (k.semaphore n t).0 (k.semaphore n t).1 ≡ n
  pub acquired : (m : k.Semaphore) (t : T) → Acquired k free m (free m t) (k.try_acquire_owned m t)
  pub subscribed : (m : k.Semaphore) (s : k.Sender) (t : T) → free m (k.subscribe s t).1 ≡ free m t

module _ {T V : Type 0} {k : Tokio T V} where
  abbrev pub permitted : Decision k → ℕ
  permitted (proceed p) = 1
  permitted (await r) = 0
  permitted panicked = 0

  abbrev pub panics : Decision k → ℕ
  panics (proceed p) = 0
  panics (await r) = 0
  panics panicked = 1

abbrev pub smaller : ℕ → ℕ → ℕ
smaller a b = if leb a b then a else b

positive_suc : (n : ℕ) → 0 < n → (g : ℕ) × (n ≡ suc g)
positive_suc zero h = absurd (omega (arith, h))
positive_suc (suc g) h = (g, refl)

module _ {T V : Type 0} {k : Tokio T V} {Key : Type 0} (same : Key → Key → Bool)
    (free : k.Semaphore → T → ℕ) (counts : Counts k free) (key : Key) (limit : ℕ) where
  -- How many of `n` checks in a row give a permit, and how many panic.
  abbrev pub proceeds : ℕ → Manager k Key → ℕ
  proceeds zero s = 0
  proceeds (suc n) s = let (d, s') = check same key limit s in permitted d + proceeds n s'

  abbrev pub all_panics : ℕ → Manager k Key → ℕ
  all_panics zero s = 0
  all_panics (suc n) s = let (d, s') = check same key limit s in panics d + all_panics n s'

  -- What a check leaves of an entry whose semaphore has `f` free permits.
  abbrev Served : k.Sender × k.Semaphore → ℕ → Decision k × Manager k Key → Type 0
  Served e zero (d, s) =
      (permitted d ≡ 0) × (panics d ≡ 0) × (s.in_flight key ≡ some e) × (free e.1 s.tokio ≡ 0)
  Served e (suc f) (d, s) =
      (permitted d ≡ 1) × (panics d ≡ 0) × (s.in_flight key ≡ some e) × (free e.1 s.tokio ≡ f)

  check-Served :
      (f : ℕ) (s : Manager k Key) (sender : k.Sender) (m : k.Semaphore)
      → s.in_flight key ≡ some (sender, m)
      → free m s.tokio ≡ f
      → Served (sender, m) f (check same key limit s)
  unfolding check
  check-Served f s sender m held left = ground (
    arith,
    held,
    left,
    counts.acquired m s.tokio,
    counts.subscribed m sender (k.try_acquire_owned m s.tokio).1,
  )

  proceeds-occupied :
      (n f : ℕ) (s : Manager k Key) (sender : k.Sender) (m : k.Semaphore)
      → s.in_flight key ≡ some (sender, m)
      → free m s.tokio ≡ f
      → (proceeds n s ≡ smaller n f) × (all_panics n s ≡ 0)
  proceeds-occupied zero f s sender m held left = ground arith
  proceeds-occupied (suc n) zero s sender m held left =
      let step = check-Served 0 s sender m held left in
      let rest = proceeds-occupied n 0 (check same key limit s).1 sender m step.2 step.3 in
      ground (arith, step, rest)
  proceeds-occupied (suc n) (suc f) s sender m held left =
      let step = check-Served (suc f) s sender m held left in
      let rest = proceeds-occupied n f (check same key limit s).1 sender m step.2 step.3 in
      ground (arith, step, rest)

  module _ (reflexive : same key key ≡ true) where
    check-vacant :
        (g : ℕ) (s : Manager k Key)
        → limit ≡ suc g
        → s.in_flight key ≡ none
        → Served
            ((k.channel s.tokio).0, (k.semaphore limit (k.channel s.tokio).1).0)
            (suc g)
            (check same key limit s)
    unfolding check insert
    check-vacant g s positive free_key =
        let (sender, t1) = k.channel s.tokio in
        let (m, t2) = k.semaphore limit t1 in
        ground (arith, positive, free_key, reflexive, counts.created limit t1, counts.acquired m t2)

    -- Of the requests for a key that nobody fetches, which come in a row, the first `limit` get a
    -- permit and the others wait; none panics. The limit is not 0, and the semaphore counts.
    pub proceeds_limit :
        (n : ℕ) (s : Manager k Key)
        → 0 < limit
        → s.in_flight key ≡ none
        → (proceeds n s ≡ smaller n limit) × (all_panics n s ≡ 0)
    proceeds_limit zero s positive free_key = ground arith
    proceeds_limit (suc n) s positive free_key =
        let (g, is_suc) = positive_suc limit positive in
        let step = check-vacant g s is_suc free_key in
        let rest =
          proceeds-occupied n g (check same key limit s).1 (k.channel s.tokio).0
            (k.semaphore limit (k.channel s.tokio).1).0 step.2 step.3 in
        ground (arith, step, rest, is_suc)

    in_flight-resolve :
        (value : V) (s : Manager k Key) → (resolve same key value s).in_flight key ≡ none
    unfolding resolve insert
    in_flight-resolve value s = ground (arith, reflexive)

    in_flight-cleanup : (s : Manager k Key) → (cleanup same key s).in_flight key ≡ none
    unfolding cleanup insert
    in_flight-cleanup s = ground (arith, reflexive)

    -- Once a key is resolved or cleaned up, whatever was in flight before, the next requests for it
    -- are let through as for a new key.
    pub proceeds-resolve :
        (n : ℕ) (value : V) (s : Manager k Key)
        → 0 < limit
        → (proceeds n (resolve same key value s) ≡ smaller n limit)
          × (proceeds n (cleanup same key s) ≡ smaller n limit)
    proceeds-resolve n value s positive = (
      (proceeds_limit n (resolve same key value s) positive (in_flight-resolve value s)).0,
      (proceeds_limit n (cleanup same key s) positive (in_flight-cleanup s)).0,
    )

module _ {T V : Type 0} {k : Tokio T V} {Key : Type 0} (same : Key → Key → Bool) where
  -- What is done for one key leaves what is in flight for another as it was.
  pub in_flight-other :
      (key other : Key) (limit : ℕ) (value : V) (s : Manager k Key)
      → same other key ≡ false
      → ((check same key limit s).1.in_flight other ≡ s.in_flight other)
        × ((resolve same key value s).in_flight other ≡ s.in_flight other)
        × ((cleanup same key s).in_flight other ≡ s.in_flight other)
  unfolding check resolve cleanup insert
  in_flight-other key other limit value s apart = ground (arith, apart)
