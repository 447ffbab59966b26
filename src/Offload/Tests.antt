-- ===== src/Offload/Tests.antt =====
-- The offload manager of hitbox/src/offload/manager.rs over a toy runtime: the state is the number
-- of the next task and the number from which on tasks are not finished, which grows by each yield.
use hitbox.Prelude.{
  ℕ, suc, String, true, false, none, some, [], ◌∷◌, ltb, ◌==◌, ◌≡◌, ◌↔◌, refl, arith,
}
use hitbox.Offload.Config.{default_config}
use hitbox.Offload.Tasks.{cache, generated, find, is_some}
use hitbox.Offload.{
  Runtime, OffloadManager, new, spawn_with_key, spawn, cancel, active_task_count, is_duplicate,
  spawn_inner, insert_handle, next_key,
}
use hitbox.Offload.Laws.{Returns, turns, wait_all-Returns}
use hitbox.Offload.Races.{spawns, here, next, spawn-untracked, late_spawn, spawn_with_key-stale}

abbrev toy : Runtime (ℕ × ℕ) String ℕ
toy = record {
  Handle = ℕ;
  spawn = λ job t. (t.0, (suc t.0, t.1));
  is_finished = λ handle t. ltb handle t.1;
  abort = λ handle t. t;
  yield_now = λ t. (t.0, suc t.1);
}

same_iff : (a b : ℕ) → (a == b) ≡ true ↔ a ≡ b
same_iff a b = ground arith

-- Tasks 0 and 1 are tracked under the keys 8 and 9.
abbrev busy : OffloadManager toy
busy = record {
  config = default_config;
  tasks = (cache 8, 0) ∷ ((cache 9, 1) ∷ []);
  key_counter = 0;
  runtime = (2, 0);
}

wait_all-Returns_example : Returns (λ m. m) 3 busy
unfolding active_task_count turns
wait_all-Returns_example = wait_all-Returns (λ m. m) 2 busy refl

abbrev idle : OffloadManager toy
idle = new default_config (0, 0)

abbrev one_spawned : OffloadManager toy
one_spawned = (spawn (◌==◌) "warmup" "task" idle).1

spawn-untracked_example :
    (find (◌==◌) (spawn (◌==◌) "warmup" "again" one_spawned).0 one_spawned.tasks ≡ none)
    × (is_some (
          find
            (◌==◌)
            (spawn (◌==◌) "warmup" "again" one_spawned).0
            (spawn (◌==◌) "warmup" "again" one_spawned).1.tasks)
        ≡ true)
spawn-untracked_example =
    spawn-untracked (◌==◌) same_iff default_config (0, 0) one_spawned "warmup" "again"
      (next (spawns "warmup" "task" (omega arith)) here)

spawn_with_key-stale_example :
    ((late_spawn (◌==◌) 7 "task" busy).0 ≡ true)
    × ((spawn_with_key (◌==◌) (cache 7) "again" (late_spawn (◌==◌) 7 "task" busy).1).0 ≡ false)
    × ((spawn_with_key (◌==◌) (cache 7) "task" busy).0 ≡ true)
    × ((spawn_with_key
          (◌==◌)
          (cache 7)
          "again"
          (cancel (◌==◌) (cache 7) (spawn_with_key (◌==◌) (cache 7) "task" busy).1).1).0
        ≡ false)
spawn_with_key-stale_example = spawn_with_key-stale (◌==◌) same_iff 7 "task" "again" busy refl refl

-- A key of the kind that the manager makes, brought by a caller, is made again by `spawn`.
brought_key_replaced :
    find
      (◌==◌)
      (spawn (◌==◌) "warmup" "own" (spawn_with_key (◌==◌) (generated "warmup" 0) "task" idle).1).0
      (spawn_with_key (◌==◌) (generated "warmup" 0) "task" idle).1.tasks
    ≡ some 0
unfolding spawn spawn_with_key is_duplicate spawn_inner insert_handle next_key
brought_key_replaced = refl
