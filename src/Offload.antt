-- ===== src/Offload.antt =====
-- hitbox/src/offload/manager.rs: the manager of tasks that run in the background. The tasks and
-- their handles are tokio's: a parameter that works on a state `T`. Metrics and tracing are left
-- out. The concurrent map is an association list.
pub mod Config
pub mod Tasks
pub mod Laws
pub mod Races
mod Tests
use text.Mathlib.Text.{◌==◌}
use hitbox.Prelude.{
  ℕ, zero, suc, ◌+◌, ◌%◌, ◌^◌, String, Bool, true, false, not, ◌&&◌, ◌||◌, Option, none, some, List,
  [], ◌∷◌, if◌then◌else◌, length, leb,
}
use hitbox.Offload.Config.{TimeoutPolicy, none_, cancel_, warn, OffloadConfig, default_config}
use hitbox.Offload.Tasks.{OffloadKey, cache, generated, is_cache, find, insert, remove, is_some}

-- What is given to `tokio::spawn`: the task, the key that it removes at its end, and its policy.
pub record Job (F K : Type 0) : Type 0 where
  pub task : F
  pub key : OffloadKey K
  pub timeout_policy : TimeoutPolicy

-- `tokio::spawn` and the methods of `JoinHandle`; `yield_now` lets the other tasks run.
pub record Runtime (T F K : Type 0) : Type 1 where
  pub Handle : Type 0
  pub spawn : Job F K → T → Handle × T
  pub is_finished : Handle → T → Bool
  pub abort : Handle → T → T
  pub yield_now : T → T

module _ {T F K : Type 0} (r : Runtime T F K) where
  -- `OffloadManagerInner`, and the state of the runtime.
  pub record OffloadManager : Type 0 where
    pub config : OffloadConfig
    pub tasks : List (OffloadKey K × r.Handle)
    pub key_counter : ℕ
    pub runtime : T

module _ {T F K : Type 0} (r : Runtime T F K) where
  abbrev pub running : Option r.Handle → T → Bool
  running none t = false
  running (some handle) t = not (r.is_finished handle t)

  abbrev pub abort_all : List (OffloadKey K × r.Handle) → T → T
  abort_all [] t = t
  abort_all ((key, handle) ∷ ts) t = abort_all ts (r.abort handle t)

  -- The entries whose tasks are not finished.
  abbrev pub unfinished : List (OffloadKey K × r.Handle) → T → List (OffloadKey K × r.Handle)
  unfinished [] t = []
  unfinished ((key, handle) ∷ ts) t =
      let rest = unfinished ts t in if r.is_finished handle t then rest else (key, handle) ∷ rest

module _ {T F K : Type 0} {r : Runtime T F K} where
  abbrev pub new : OffloadConfig → T → OffloadManager r
  new config t = record { config = config; tasks = []; key_counter = 0; runtime = t }

  abbrev pub with_defaults : T → OffloadManager r
  with_defaults t = new default_config t

  -- The counter has 64 bits; `fetch_add` wraps around.
  unfoldable pub next_key : String → OffloadManager r → OffloadKey K × OffloadManager r
  next_key kind m =
      (generated kind m.key_counter, record m { key_counter = (m.key_counter + 1) % 2 ^ 64 })

  unfoldable pub spawn_inner : F → OffloadKey K → OffloadManager r → r.Handle × OffloadManager r
  spawn_inner task key m =
      let job : Job F K = record {
        task = task;
        key = key;
        timeout_policy = m.config.timeout_policy;
      } in
      let (handle, t) = r.spawn job m.runtime in (handle, record m { runtime = t })

module _ {T F K : Type 0} {r : Runtime T F K} where
  unfoldable pub cancel_all : OffloadManager r → OffloadManager r
  cancel_all m = record m { runtime = abort_all r m.tasks m.runtime }

  unfoldable pub cancel_entry : Option r.Handle → OffloadManager r → Bool × OffloadManager r
  cancel_entry none m = (false, m)
  cancel_entry (some handle) m = (true, record m { runtime = r.abort handle m.runtime })

  unfoldable pub active_task_count : OffloadManager r → ℕ
  active_task_count m = length (unfinished r m.tasks m.runtime)

  unfoldable pub total_task_count : OffloadManager r → ℕ
  total_task_count m = length m.tasks

  unfoldable pub cleanup_finished : OffloadManager r → OffloadManager r
  cleanup_finished m = record m { tasks = unfinished r m.tasks m.runtime }

  -- `wait_all`, with fuel for the turns of its loop; none where the fuel is used up. What other
  -- tasks do to the manager while it yields is a parameter.
  unfoldable pub wait_all :
      (OffloadManager r → OffloadManager r) → ℕ → OffloadManager r → Option (OffloadManager r)
  unfolding cleanup_finished
  wait_all meanwhile zero m = none
  wait_all meanwhile (suc fuel) m =
      let m' = cleanup_finished m in
      let rest =
        wait_all meanwhile fuel (meanwhile (record m' { runtime = r.yield_now m'.runtime })) in
      if leb (length m'.tasks) 0 then some m' else rest

module _ {T F K : Type 0} {r : Runtime T F K} (same : K → K → Bool) where
  -- The last step of a job, under each policy: its key is removed.
  unfoldable pub complete : Job F K → OffloadManager r → OffloadManager r
  complete job m = record m { tasks = remove same job.key m.tasks }

  abbrev contains_key : OffloadKey K → OffloadManager r → Bool
  contains_key key m = is_some (find same key m.tasks)

  unfoldable pub is_duplicate : OffloadKey K → OffloadManager r → Bool
  is_duplicate key m = m.config.deduplicate && (is_cache key && contains_key key m)

  unfoldable pub insert_handle : OffloadKey K → r.Handle → OffloadManager r → OffloadManager r
  insert_handle key handle m = record m { tasks = insert same key handle m.tasks }

  unfoldable pub spawn_with_key : OffloadKey K → F → OffloadManager r → Bool × OffloadManager r
  unfolding is_duplicate spawn_inner insert_handle
  spawn_with_key key task m =
      if is_duplicate key m
      then (false, m)
      else (let (handle, m') = spawn_inner task key m in (true, insert_handle key handle m'))

  unfoldable pub spawn : String → F → OffloadManager r → OffloadKey K × OffloadManager r
  unfolding next_key spawn_with_key
  spawn kind task m = let (key, m') = next_key kind m in (key, (spawn_with_key key task m').1)

  unfoldable pub cancel : OffloadKey K → OffloadManager r → Bool × OffloadManager r
  unfolding cancel_entry
  cancel key m = cancel_entry (find same key m.tasks) m

  unfoldable pub is_in_flight : OffloadKey K → OffloadManager r → Bool
  is_in_flight key m = running r (find same key m.tasks) m.runtime
