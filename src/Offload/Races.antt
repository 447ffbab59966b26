-- ===== src/Offload/Races.antt =====
-- Orders of the steps of the offload manager of hitbox/src/offload/manager.rs: what other tasks do
-- between two of its steps, and the keys along a run.
use hitbox.Prelude.{
  ℕ, ◌+◌, ◌%◌, ◌^◌, ◌<◌, String, Bool, true, false, Option, none, some, List, [], ◌∷◌, ◌≡◌, refl,
  sym, ◌↔◌, arith, if◌then◌else◌,
}
use mathlib.Core.Path.{subst}
use hitbox.Offload.Config.{OffloadConfig}
use hitbox.Offload.Tasks.{OffloadKey, cache, generated, find, remove, is_some}
use hitbox.Offload.{
  Job, Runtime, OffloadManager, new, next_key, spawn_inner, complete, is_duplicate, insert_handle,
  spawn_with_key, spawn, cancel, cancel_entry, cancel_all, unfinished, cleanup_finished,
}
use hitbox.Offload.Laws.{same_key_refl}

module _ {K : Type 0} where
  -- No key that the manager made has the id `n` or a later one.
  abbrev pub IsBelow : ℕ → OffloadKey K → Type 0
  IsBelow n (cache k) = Unit
  IsBelow n (generated kind id) = id < n

  abbrev pub AreBelow : {H : Type 0} → ℕ → List (OffloadKey K × H) → Type 0
  AreBelow n [] = Unit
  AreBelow n ((key, handle) ∷ ts) = IsBelow n key × AreBelow n ts

  IsBelow-later : (n : ℕ) (key : OffloadKey K) → IsBelow n key → IsBelow (n + 1) key
  IsBelow-later n (cache k) h = h
  IsBelow-later n (generated kind id) h = omega (arith, h)

  module _ {H : Type 0} (n : ℕ) where
    AreBelow-later : (ts : List (OffloadKey K × H)) → AreBelow n ts → AreBelow (n + 1) ts
    AreBelow-later [] h = h
    AreBelow-later ((key, handle) ∷ ts) h = (IsBelow-later n key h.0, AreBelow-later ts h.1)

    remove-AreBelow :
        (same : K → K → Bool) (key : OffloadKey K) (ts : List (OffloadKey K × H))
        → AreBelow n ts
        → AreBelow n (remove same key ts)
    remove-AreBelow same key [] h = h
    remove-AreBelow same key ((k, handle) ∷ ts) h =
        ground (arith, h, remove-AreBelow same key ts h.1)

    find-AreBelow :
        (same : K → K → Bool) (kind : String) (ts : List (OffloadKey K × H))
        → AreBelow n ts
        → find same (generated kind n) ts ≡ none
    find-AreBelow same kind [] h = refl
    find-AreBelow same kind ((cache k, handle) ∷ ts) h = find-AreBelow same kind ts h.1
    find-AreBelow same kind ((generated kind' id, handle) ∷ ts) h =
        ground (arith, h.0, find-AreBelow same kind ts h.1)

module _ {T F K : Type 0} (r : Runtime T F K) where
  unfinished-AreBelow :
      (n : ℕ) (ts : List (OffloadKey K × r.Handle)) (t : T)
      → AreBelow n ts
      → AreBelow n (unfinished r ts t)
  unfinished-AreBelow n [] t h = h
  unfinished-AreBelow n ((key, handle) ∷ ts) t h = ground (arith, h, unfinished-AreBelow n ts t h.1)

module _ {T F K : Type 0} {r : Runtime T F K} (same : K → K → Bool) where
  -- The steps of a manager: its operations, the end of a task, which removes its key, and whatever
  -- the runtime does. `takes_key` and `inserts` are halves of a spawn, which other steps may come
  -- between. A key that a caller brings is the key of a cache entry, or has an id that the manager has
  -- given before. The counter is taken not to wrap around.
  pub data Step : OffloadManager r → OffloadManager r → Type 0 where
    spawns :
        {m : OffloadManager r} (kind : String) (task : F)
        → m.key_counter + 1 < 2 ^ 64
        → Step m (spawn same kind task m).1
    spawns_with_key :
        {m : OffloadManager r} (key : OffloadKey K) (task : F)
        → IsBelow m.key_counter key
        → Step m (spawn_with_key same key task m).1
    takes_key :
        {m : OffloadManager r} (kind : String)
        → m.key_counter + 1 < 2 ^ 64
        → Step m (next_key kind m).1
    inserts :
        {m : OffloadManager r} (key : OffloadKey K) (handle : r.Handle)
        → IsBelow m.key_counter key
        → Step m (insert_handle same key handle m)
    completes : {m : OffloadManager r} (job : Job F K) → Step m (complete same job m)
    cancels : {m : OffloadManager r} (key : OffloadKey K) → Step m (cancel same key m).1
    cancels_all : {m : OffloadManager r} → Step m (cancel_all m)
    cleans : {m : OffloadManager r} → Step m (cleanup_finished m)
    runs : {m : OffloadManager r} (t : T) → Step m (record m { runtime = t })

  pub data Reach : OffloadManager r → OffloadManager r → Type 0 where
    here : {m : OffloadManager r} → Reach m m
    next : {m n o : OffloadManager r} → Step m n → Reach n o → Reach m o

  abbrev pub IsFresh : OffloadManager r → Type 0
  IsFresh m = AreBelow m.key_counter m.tasks

  cancel_entry-IsFresh :
      (found : Option r.Handle) (m : OffloadManager r)
      → IsFresh m
      → IsFresh (cancel_entry found m).1
  unfolding cancel_entry
  cancel_entry-IsFresh none m h = h
  cancel_entry-IsFresh (some handle) m h = h

  spawn_with_key-AreBelow :
      (n : ℕ) (key : OffloadKey K) (task : F) (m : OffloadManager r)
      → AreBelow n m.tasks
      → IsBelow n key
      → AreBelow n (spawn_with_key same key task m).1.tasks
        × ((spawn_with_key same key task m).1.key_counter ≡ m.key_counter)
  unfolding spawn_with_key insert_handle spawn_inner
  spawn_with_key-AreBelow n key task m h small =
      ground (arith, h, small, remove-AreBelow n same key m.tasks h)

  spawn-IsFresh :
      (kind : String) (task : F) (m : OffloadManager r)
      → m.key_counter + 1 < 2 ^ 64
      → IsFresh m
      → IsFresh (spawn same kind task m).1
  unfolding spawn next_key
  spawn-IsFresh kind task m small h =
      let n = (m.key_counter + 1) % 2 ^ 64 in
      let e : m.key_counter + 1 ≡ n = omega (arith, small) in
      let m' = (next_key kind m).1 in
      let below = subst (λ k. AreBelow k m.tasks) e (AreBelow-later m.key_counter m.tasks h) in
      let (out, counter) =
        spawn_with_key-AreBelow n (generated kind m.key_counter) task m' below (omega (arith, e)) in
      subst (λ k. AreBelow k (spawn same kind task m).1.tasks) (sym counter) out

  Step-IsFresh : {m n : OffloadManager r} → Step m n → IsFresh m → IsFresh n
  unfolding complete cancel cancel_all cleanup_finished next_key insert_handle
  Step-IsFresh {m} (spawns kind task small) h = spawn-IsFresh kind task m small h
  Step-IsFresh {m} (spawns_with_key key task made) h =
      let (out, counter) = spawn_with_key-AreBelow m.key_counter key task m h made in
      subst (λ k. AreBelow k (spawn_with_key same key task m).1.tasks) (sym counter) out
  Step-IsFresh {m} (takes_key kind small) h =
      subst (λ k. AreBelow k m.tasks) (omega (arith, small))
        (AreBelow-later m.key_counter m.tasks h)
  Step-IsFresh {m} (inserts key handle made) h =
      (made, remove-AreBelow m.key_counter same key m.tasks h)
  Step-IsFresh {m} (completes job) h = remove-AreBelow m.key_counter same job.key m.tasks h
  Step-IsFresh {m} (cancels key) h = cancel_entry-IsFresh (find same key m.tasks) m h
  Step-IsFresh {m} cancels_all h = h
  Step-IsFresh {m} cleans h = unfinished-AreBelow r m.key_counter m.tasks m.runtime h
  Step-IsFresh {m} (runs t) h = h

  Reach-IsFresh : {m n : OffloadManager r} → Reach m n → IsFresh m → IsFresh n
  Reach-IsFresh here h = h
  Reach-IsFresh (next step rest) h = Reach-IsFresh rest (Step-IsFresh step h)

module _ {T F K : Type 0} {r : Runtime T F K} (same : K → K → Bool) where
  -- `spawn_with_key` of a task that ends, and removes its key, before its handle is stored.
  unfoldable pub late_spawn : K → F → OffloadManager r → Bool × OffloadManager r
  unfolding is_duplicate spawn_inner complete insert_handle
  late_spawn key task m =
      let job : Job F K = record {
        task = task;
        key = cache key;
        timeout_policy = m.config.timeout_policy;
      } in
      if is_duplicate same (cache key) m
      then (false, m)
      else (let (handle, m') = spawn_inner task (cache key) m in
          (true, insert_handle same (cache key) handle (complete same job m')))

module _ {T F K : Type 0} {r : Runtime T F K} (same : K → K → Bool)
    (same_iff : (a b : K) → same a b ≡ true ↔ a ≡ b) where
  -- In every state that a new manager reaches by its operations, with the ends of tasks and the halves
  -- of other spawns anywhere between them, the key that `spawn` makes is not tracked yet: its task is never turned down and
  -- replaces none, and it is tracked afterwards. The keys that callers give to `spawn_with_key` are
  -- those of cache entries, or have an id that the manager has given before; and the counter is taken
  -- not to have wrapped around.
  pub spawn-untracked :
      (config : OffloadConfig) (t : T) (m : OffloadManager r) (kind : String) (task : F)
      → Reach same (new config t) m
      → (find same (spawn same kind task m).0 m.tasks ≡ none)
        × (is_some (find same (spawn same kind task m).0 (spawn same kind task m).1.tasks) ≡ true)
  unfolding spawn next_key spawn_with_key insert_handle spawn_inner
  spawn-untracked config t m kind task run = (
    find-AreBelow m.key_counter same kind m.tasks (Reach-IsFresh same run (ground arith)),
    ground (arith, same_key_refl same same_iff (generated kind m.key_counter)),
  )

  module _ (key : K) (task again : F) (m : OffloadManager r) where
    -- With deduplication on, for the key of a cache entry that is not tracked: `spawn_with_key` takes
    -- a first task. If the task ends between its spawn and the storing of its handle, the next
    -- `spawn_with_key` of the same key is turned down; so it is if the first task is spawned and its
    -- handle stored, and it is then cancelled.
    pub spawn_with_key-stale :
        m.config.deduplicate ≡ true
        → find same (cache key) m.tasks ≡ none
        → ((late_spawn same key task m).0 ≡ true)
          × ((spawn_with_key same (cache key) again (late_spawn same key task m).1).0 ≡ false)
          × ((spawn_with_key same (cache key) task m).0 ≡ true)
          × ((spawn_with_key same
                (cache key)
                again
                (cancel same (cache key) (spawn_with_key same (cache key) task m).1).1).0
              ≡ false)
    unfolding spawn_with_key is_duplicate late_spawn cancel cancel_entry insert_handle spawn_inner
    spawn_with_key-stale on untracked =
        ground (arith, on, untracked, same_key_refl same same_iff (cache key))
